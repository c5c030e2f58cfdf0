-- ===== src/Resources/Tests.antt =====
-- Runs of the budget.
use goblin_ftp.Base.{true, false, List, [], ◌∷◌, codes, some, bytes_has_eq}
use goblin_ftp.Base.Ints.{pos}
use goblin_ftp.Resources.{
  Budget, Answers, new_budget, run, Call, reserves, reserves_upload, releases,
}
use goblin_ftp.Resources.Balance.{IsBalanced, run-IsBalanced}

abbrev start : Budget
start = new_budget (some ((codes "/data/gftp-1", 30) ∷ [], false)) 1000 100 true

abbrev answers : Answers
answers = record { now = 100; staged = some 40; checked = 101; gone = λ p. true }

abbrev calls : List Call
calls =
    reserves (codes "s") (pos 60) answers
    ∷ reserves_upload (codes "s") (pos 50) 2 answers
    ∷ releases 0
    ∷ releases 0
    ∷ []

run-IsBalanced_example :
    IsBalanced
      (run (new_budget (some ((codes "/data/gftp-1", 30) ∷ [], false)) 1000 100 true) calls)
run-IsBalanced_example =
    run-IsBalanced (some ((codes "/data/gftp-1", 30) ∷ [], false)) 1000 100 true calls
