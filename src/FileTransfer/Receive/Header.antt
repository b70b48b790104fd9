-- ===== src/FileTransfer/Receive/Header.antt =====
-- A header that a sender wrote is the header that the receiver gets.
use hyper_link.Base.{
  ℕ, ◌<◌, ◌≤◌, ◌≡◌, refl, ap, ◌∙◌, arith, false, some, [], ◌++◌, append_assoc, take, length, Text,
  text_eq_refl, ltb, ◌==◌, ◌||◌, ok,
}
use hyper_link.Base.Program.{Program, >>=-ok, lifts}
use hyper_link.FileTransfer.{TransferKind}
use hyper_link.FileTransfer.Names.{safe_file_name}
use hyper_link.FileTransfer.Wire.{make_header, header_bytes, magic, kind_of_code}
use hyper_link.FileTransfer.Wire.RoundTrip.{
  Fits64, length-make_header, kind_of_code-kind_code, magic-make_header, kind-make_header,
  payload_size-make_header, name_size-make_header, offset-make_header, total_size-make_header,
}
use hyper_link.FileTransfer.Receive.{
  IncomingHeader, max_name_bytes, field_at, check_header, receive_exact, receive_header,
}
use hyper_link.FileTransfer.Receive.Stream.{IsStream, receive_exact_front}

module _ (kind : TransferKind) (p o t : ℕ) (name : Text) where
  -- What a sender puts before a payload: the header and the name.
  abbrev pub announce : Text
  announce = make_header kind p (length name) o t ++ name

  -- The header that it stands for, with the name as `file_name` turns it out.
  abbrev pub announced : Text → IncomingHeader
  announced file_name = record {
    kind = kind;
    payload_size = p;
    name_size = length name;
    offset = o;
    total_size = t;
    file_name = file_name;
  }

  -- What a header can carry: 64-bit numbers, and a name of 1 to 4096 bytes.
  pub record IsSendable : Type 0 where
    pub payload_fits : Fits64 p
    pub offset_fits : Fits64 o
    pub total_fits : Fits64 t
    pub named : 0 < length name
    pub short : length name ≤ max_name_bytes

name_length_passes : (n : ℕ) → 0 < n → n ≤ max_name_bytes → (n == 0 || ltb max_name_bytes n) ≡ false
name_length_passes n h k = ground arith

-- The checks pass on the right magic bytes, a name length in range and a known kind.
check_header_passes :
    (header : Text) (kind : TransferKind)
    → take 8 header ≡ magic
    → 0 < field_at 24 header
    → field_at 24 header ≤ max_name_bytes
    → kind_of_code (field_at 8 header) ≡ some kind
    → check_header header
      ≡ ok (record {
        kind = kind;
        payload_size = field_at 16 header;
        name_size = field_at 24 header;
        offset = field_at 32 header;
        total_size = field_at 40 header;
        file_name = [];
      })
unfolding check_header
check_header_passes header kind e pos short k =
    rw (e, text_eq_refl magic, name_length_passes _ pos short, k, check_header)

module _ (kind : TransferKind) (p o t : ℕ) (name : Text) (fits : IsSendable kind p o t name) where
  abbrev pub header : Text
  header = make_header kind p (length name) o t

  -- Each field of the header reads back as it was written.
  header_fields :
      (field_at 16 header ≡ p)
      × (field_at 24 header ≡ length name)
      × (field_at 32 header ≡ o)
      × (field_at 40 header ≡ t)
      × (kind_of_code (field_at 8 header) ≡ some kind)
  unfolding field_at
  header_fields = (
    payload_size-make_header kind p (length name) o t fits.payload_fits,
    name_size-make_header kind p (length name) o t (omega arith),
    offset-make_header kind p (length name) o t fits.offset_fits,
    total_size-make_header kind p (length name) o t fits.total_fits,
    ap kind_of_code (kind-make_header kind p (length name) o t) ∙ kind_of_code-kind_code kind,
  )

  pub check_header-make_header : check_header header ≡ ok (announced kind p o t name [])
  check_header-make_header =
      let (ep, en, eo, et, ek) = header_fields in
      check_header_passes header kind (magic-make_header kind p (length name) o t) (omega arith)
        (omega arith) ek
      ∙ (rw (ep, en, eo, et))

module _ {S : Type 0} (receive_into : ℕ → Program S Text) (pending : S → Text)
    (stream : IsStream receive_into pending) (kind : TransferKind) (p o t : ℕ) (name : Text)
    (fits : IsSendable kind p o t name) (s : S) (rest : Text)
    (arrives : pending s ≡ announce kind p o t name ++ rest) where
  -- The two reads of a header: its 48 bytes, then the name that it announces.
  reads_header :
      (s' : S) × (receive_exact receive_into header_bytes s
        ≡ some (ok (make_header kind p (length name) o t), s'))
      × (pending s' ≡ name ++ rest)
  reads_header =
      receive_exact_front receive_into pending stream _ (name ++ rest) header_bytes s
        (length-make_header kind p (length name) o t) (arrives ∙ append_assoc _ name rest)

  -- What a sender announces is what the receiver gets, with the name made safe: the header and the
  -- name are taken off the stream, however it is cut into pieces, and nothing else.
  pub receive_header-make_header :
      (safe : Text)
      → safe_file_name name ≡ ok safe
      → (s' : S) × (receive_header receive_into s ≡ some (ok (announced kind p o t name safe), s'))
        × (pending s' ≡ rest)
  unfolding receive_header
  receive_header-make_header safe e =
      let (s₁, r₁, q₁) = reads_header in
      let (s₂, r₂, q₂) =
        receive_exact_front receive_into pending stream name rest (length name) s₁ refl q₁ in
      (
        s₂,
        >>=-ok (receive_exact receive_into header_bytes) _ s r₁
            ∙ lifts (check_header _) _ s₁ (check_header-make_header kind p o t name fits)
            ∙ >>=-ok (receive_exact receive_into (length name)) _ s₁ r₂
            ∙ lifts (safe_file_name name) _ s₂ e,
        q₂,
      )
