-- ===== src/Shell.antt =====
-- How a POSIX shell reads a command line: the rules of quoting that the program relies on when it
-- hands commands to `popen` and `std::system` (IEEE Std 1003.1, 2.2). A text that uses any other
-- feature of the shell has no reading here, so that a reading also says that nothing is expanded.
use hyper_link.Base.{
  ℕ, Bool, ◌||◌, ◌&&◌, Option, none, some, List, [], ◌∷◌, ◌++◌, Text, leb, ◌==◌, if◌then◌else◌,
}

abbrev pub quote_mark : ℕ
quote_mark = b'\''

abbrev pub backslash : ℕ
backslash = b'\\'

abbrev pub space : ℕ
space = b' '

-- Letters, digits and `- . / _`, which stand for themselves.
unfoldable pub is_literal : ℕ → Bool
is_literal c =
    leb b'a' c && leb c b'z'
    || (leb b'A' c && leb c b'Z' || (leb b'-' c && leb c b'9' || c == b'_'))

pub data Mode : Type 0 where
  plain quoted escaped : Mode

-- Adds a byte to the word that is being read.
abbrev pub extend : Option Text → ℕ → Option Text
extend none c = some (c ∷ [])
extend (some word) c = some (word ++ c ∷ [])

abbrev pub started : Option Text → Option Text
started none = some []
started (some word) = some word

-- Ends the word that is being read, if there is one.
abbrev pub finish : List Text → Option Text → List Text
finish words none = words
finish words (some word) = words ++ word ∷ []

-- The words of a command line, from the mode, the words so far and the word that is being read.
unfoldable pub read : Mode → List Text → Option Text → Text → Option (List Text)
read plain words word [] = some (finish words word)
read quoted words word [] = none
read escaped words word [] = none
read plain words word (c ∷ s) =
    let next = read plain (finish words word) none s in
    let open_quote = read quoted words (started word) s in
    let escape = read escaped words word s in
    let add = read plain words (extend word c) s in
    if c == space
    then next
    else if c == quote_mark
    then open_quote
    else if c == backslash
    then escape
    else if is_literal c
    then add
    else none
read quoted words word (c ∷ s) =
    let close_quote = read plain words word s in
    let add = read quoted words (extend word c) s in if c == quote_mark then close_quote else add
read escaped words word (c ∷ s) = read plain words (extend word c) s

unfoldable pub words_of : Text → Option (List Text)
words_of command = read plain [] none command
