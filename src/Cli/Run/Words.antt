-- ===== src/Cli/Run/Words.antt =====
-- How the shell reads the command that `run_command` gives to `std::system`.
use hyper_link.Base.{
  ◌≡◌, refl, none, some, List, [], ◌∷◌, ◌++◌, Text, codes, append_assoc, sym, ap, ◌∙◌,
}
use hyper_link.Shell.{read, plain, words_of}
use hyper_link.FileTransfer.Quote.{shell_quote}
use hyper_link.FileTransfer.Quote.Words.{read_last, read_next}
use hyper_link.Cli.Run.{command_from, command_of}

-- The command as the quoted words with a space between them.
abbrev joined : Text → List Text → Text
joined word [] = shell_quote word
joined word (arg ∷ args) = shell_quote word ++ codes " " ++ joined arg args

-- A word moves to the front of the command.
append_word :
    (front word next : Text)
    → (front ++ word) ++ (codes " " ++ next) ≡ (front ++ (word ++ codes " ")) ++ next
append_word front word next =
    sym (append_assoc (front ++ word) (codes " ") next)
    ∙ ap (λ t. t ++ next) (append_assoc front word (codes " "))

command_from-joined :
    (front word : Text) (args : List Text)
    → command_from (front ++ shell_quote word) args ≡ front ++ joined word args
unfolding command_from
command_from-joined front word [] = refl
command_from-joined front word (arg ∷ args) =
    ap (λ t. command_from t args) (append_word front (shell_quote word) (shell_quote arg))
    ∙ command_from-joined (front ++ (shell_quote word ++ codes " ")) arg args
    ∙ append_assoc front (shell_quote word ++ codes " ") (joined arg args)

read-joined :
    (words : List Text) (word : Text) (args : List Text)
    → read plain words none (joined word args) ≡ some (words ++ word ∷ args)
read-joined words word [] = read_last words word
read-joined words word (arg ∷ args) =
    read_next words word (joined arg args)
    ∙ read-joined (words ++ word ∷ []) arg args
    ∙ ap some (append_assoc words (word ∷ []) (arg ∷ args))

-- The shell runs the executable with exactly the given arguments, whatever bytes they hold.
pub words_of-command_of :
    (executable : Text) (args : List Text)
    → words_of (command_of executable args) ≡ some (executable ∷ args)
unfolding words_of command_of
words_of-command_of executable args =
    ap (λ c. read plain [] none c) (command_from-joined [] executable args)
    ∙ read-joined [] executable args
