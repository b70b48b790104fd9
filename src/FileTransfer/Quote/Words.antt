-- ===== src/FileTransfer/Quote/Words.antt =====
-- What the shell makes of the quoted text.
use hyper_link.Base.{
  ℕ, none, some, List, [], ◌∷◌, ◌++◌, Text, codes, ◌==◌, if◌then◌else◌, ◌≡◌, refl, ◌∙◌, ap, sym,
  append_assoc, append-nil, Bool-cases, ==_iff, is_empty, inl, inr,
}
use hyper_link.Shell.{plain, quoted, read, words_of, is_literal}
use hyper_link.FileTransfer.Names.{dot, parent_path, filename}
use hyper_link.FileTransfer.Quote.{
  quote_mark, escaped_mark, quote_from, shell_quote, tar_create_command, tar_extract_command,
}

-- What a byte becomes between quotation marks.
abbrev hidden : ℕ → Text
hidden c = if c == quote_mark then escaped_mark else c ∷ []

-- The quoted text, byte by byte.
abbrev hide : Text → Text
hide [] = quote_mark ∷ []
hide (c ∷ s) = hidden c ++ hide s

quote_from-hide : (front s : Text) → quote_from front s ≡ front ++ hide s
unfolding quote_from
quote_from-hide front [] = refl
quote_from-hide front (c ∷ s) = elim (Bool-cases (c == quote_mark)) [
  | inl hit ↦
      rw hit (quote_from-hide (front ++ escaped_mark) s ∙ append_assoc front escaped_mark (hide s))
  | inr miss ↦ rw miss (quote_from-hide (front ++ c ∷ []) s ∙ append_assoc front (c ∷ []) (hide s))
]

-- The shell reads the bytes back into the current word, and is left behind the closing mark.
read-hide :
    (words : List Text) (word s rest : Text)
    → read quoted words (some word) (hide s ++ rest) ≡ read plain words (some (word ++ s)) rest
unfolding read
read-hide words word [] rest = rw append-nil
read-hide words word (c ∷ s) rest =
    let ih =
      read-hide words (word ++ c ∷ []) s rest
      ∙ ap (λ w. read plain words (some w) rest) (append_assoc word (c ∷ []) s) in
    elim (Bool-cases (c == quote_mark)) [
      | inl hit ↦ let e = (==_iff c quote_mark).0 hit in rw e (rw e at ih)
      | inr miss ↦ rw miss (rw miss ih)
    ]

read-shell_quote :
    (words : List Text) (s rest : Text)
    → read plain words none (shell_quote s ++ rest) ≡ read plain words (some s) rest
unfolding read shell_quote
read-shell_quote words s rest =
    ap (λ t. read plain words none (t ++ rest)) (quote_from-hide (quote_mark ∷ []) s)
    ∙ read-hide words [] s rest

pub read_last :
    (words : List Text) (s : Text) → read plain words none (shell_quote s) ≡ some (words ++ s ∷ [])
read_last words s =
    ap (λ t. read plain words none t) (sym (append-nil (shell_quote s)))
    ∙ read-shell_quote words s []
    ∙ unfold read in refl

pub read_next :
    (words : List Text) (s rest : Text)
    → read plain words none (shell_quote s ++ codes " " ++ rest)
      ≡ read plain (words ++ s ∷ []) none rest
read_next words s rest =
    ap (λ t. read plain words none t) (append_assoc (shell_quote s) (codes " ") rest)
    ∙ read-shell_quote words s (codes " " ++ rest)
    ∙ unfold read in refl

-- The shell reads a quoted text as one word, which is the text itself, whatever bytes it holds: no
-- byte of it ends the word or is expanded.
pub words_of-shell_quote : (text : Text) → words_of (shell_quote text) ≡ some (text ∷ [])
unfolding words_of
words_of-shell_quote text = read_last [] text

-- `tar` is run with exactly the intended arguments, whatever the directory's name is.
pub tar_command_words :
    (directory : Text)
    → (words_of (tar_create_command directory)
        ≡ some (
            codes "tar"
            ∷ codes "-cf"
            ∷ codes "-"
            ∷ codes "-C"
            ∷ (if is_empty (parent_path directory) then dot else parent_path directory)
            ∷ filename directory
            ∷ []))
      × (words_of (tar_extract_command directory)
          ≡ some (codes "tar" ∷ codes "-xf" ∷ codes "-" ∷ codes "-C" ∷ directory ∷ []))
unfolding words_of tar_create_command tar_extract_command read is_literal
tar_command_words directory = (
  read-shell_quote _ (if is_empty (parent_path directory) then dot else parent_path directory) _
      ∙ read_last _ (filename directory),
  read_last _ directory,
)
