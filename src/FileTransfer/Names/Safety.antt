-- ===== src/FileTransfer/Names/Safety.antt =====
-- What the receiver's checks on names keep out.
use hyper_link.Base.{
  ◌≡◌, refl, ◌≢◌, ◌↔◌, ◌⊎◌, inl, inr, ◌∙◌, sym, ap, arith, false, Bool-cases, [], ◌∷◌, ◌++◌,
  append-nil, append_assoc, Text, Lacks, text_eq_iff, ◌==◌, if◌then◌else◌, ok, err, Error,
}
use hyper_link.FileTransfer.Names.{
  slash, dot, dot_dot, filename_from, filename, is_special, safe_file_name, bad_file_name,
}

-- A name of one file, that no path resolution gives a meaning to.
pub record IsPlain (part : Text) : Type 0 where
  pub no_slash : Lacks slash part
  pub no_dot : part ≢ dot
  pub no_dot_dot : part ≢ dot_dot
  pub no_gap : part ≢ []

is_special_iff :
    (part : Text) → (is_special part ≡ false) ↔ ((part ≢ dot) × (part ≢ dot_dot) × (part ≢ []))
unfolding is_special
is_special_iff [] = ground (arith, text_eq_iff [] dot, text_eq_iff [] dot_dot)
is_special_iff (c ∷ s) = ground (arith, text_eq_iff (c ∷ s) dot, text_eq_iff (c ∷ s) dot_dot)

pub IsPlain-iff : (part : Text) → Lacks slash part → (is_special part ≡ false) ↔ IsPlain part
IsPlain-iff part l = (
  λ e.
      let (d, dd, gap) = (is_special_iff part).0 e in
      record { no_slash = l; no_dot = d; no_dot_dot = dd; no_gap = gap },
  λ h. (is_special_iff part).1 (h.no_dot, h.no_dot_dot, h.no_gap),
)

-- Where the last part of a path begins: nowhere, or behind its last separator.
abbrev Ends : Text → Text → Text → Type 0
Ends last s r =
    ((r ≡ last ++ s) × Lacks slash s)
    ⊎ ((p : Text) × (q : Text) × (s ≡ p ++ slash ∷ q) × Lacks slash q × (r ≡ q))

filename_from-Ends : (last s : Text) → Ends last s (filename_from last s)
unfolding filename_from
filename_from-Ends last [] = inl (sym (append-nil last), tt)
filename_from-Ends last (c ∷ s) = elim (Bool-cases (c == slash)) [
  | inl hit ↦ elim (filename_from-Ends [] s) [
    | inl (e, l) ↦ inr ([], s, ground arith, l, rw hit e)
    | inr (p, q, e, l, r) ↦ inr (c ∷ p, q, ap (◌∷◌ c) e, l, rw hit r)
  ]
  | inr miss ↦ elim (filename_from-Ends (last ++ c ∷ []) s) [
    | inl (e, l) ↦ inl (rw miss (e ∙ append_assoc last (c ∷ []) s), (ground arith, l))
    | inr (p, q, e, l, r) ↦ inr (c ∷ p, q, ap (◌∷◌ c) e, l, rw miss r)
  ]
]

filename_from-append : (last p q : Text) → filename_from last (p ++ slash ∷ q) ≡ filename_from [] q
unfolding filename_from
filename_from-append last [] q = refl
filename_from-append last (c ∷ p) q =
    filename_from-append (if c == slash then [] else last ++ c ∷ []) p q

filename_from-Lacks : (last s : Text) → Lacks slash s → filename_from last s ≡ last ++ s
unfolding filename_from
filename_from-Lacks last [] l = sym (append-nil last)
filename_from-Lacks last (c ∷ s) (n, l) = elim (Bool-cases (c == slash)) [
  | inl hit ↦ absurd (ground arith)
  | inr miss ↦ rw miss (filename_from-Lacks (last ++ c ∷ []) s l ∙ append_assoc last (c ∷ []) s)
]

-- The name is the part itself, or the part behind a separator.
abbrev pub EndsIn : Text → Text → Type 0
EndsIn name part = (name ≡ part) ⊎ ((p : Text) × (name ≡ p ++ slash ∷ part))

safe_file_name_accepts :
    (name part : Text)
    → (safe_file_name name ≡ ok part) ↔ ((filename name ≡ part) × (is_special part ≡ false))
unfolding safe_file_name
safe_file_name_accepts name part = (λ h. ground arith, λ h. rw (h.0, h.1, safe_file_name))

safe_file_name_refuses : (name : Text) {e : Error} → safe_file_name name ≡ err e → e ≡ bad_file_name
unfolding safe_file_name
safe_file_name_refuses name h = ground arith

filename-Ends : (name : Text) → Lacks slash (filename name) × EndsIn name (filename name)
unfolding filename
filename-Ends name = elim (filename_from-Ends [] name) [
  | inl (e, l) ↦ (rw e l, inl (sym e))
  | inr (p, q, e, l, r) ↦ (rw r l, inr (p, rw r e))
]

filename_of_EndsIn : (name part : Text) → Lacks slash part → EndsIn name part → filename name ≡ part
unfolding filename
filename_of_EndsIn name part l (inl e) = rw e (filename_from-Lacks [] part l)
filename_of_EndsIn name part l (inr (p, e)) =
    rw e (filename_from-append [] p part ∙ filename_from-Lacks [] part l)

-- `safe_file_name` returns exactly the last part of a name, if that is a plain file name: it holds no
-- separator, is not empty and is neither `.` nor `..`, so that the directory that it is joined to
-- contains the file.
pub safe_file_name-IsPlain :
    (name part : Text) → (safe_file_name name ≡ ok part) ↔ (IsPlain part × EndsIn name part)
safe_file_name-IsPlain name part = (accepts, λ h. returns h.0 h.1)
  where
    accepts : safe_file_name name ≡ ok part → IsPlain part × EndsIn name part
    accepts h =
        let (e, special) = (safe_file_name_accepts name part).0 h in
        let (l, ends) = filename-Ends name in
        ((IsPlain-iff part (rw e at l)).0 special, rw e at ends)

    returns : IsPlain part → EndsIn name part → safe_file_name name ≡ ok part
    returns h ends =
        (safe_file_name_accepts name part).1
          (filename_of_EndsIn name part h.no_slash ends, (IsPlain-iff part h.no_slash).1 h)
