-- ===== src/Tests/Tags.antt =====
-- A board with a label and a lead.
use configurable_crm.Prelude.{String, false, none, some, [], ◌∷◌, ◌≡◌, refl, arith}
use configurable_crm.Prelude.Table.{find}
use configurable_crm.Errors.{Result, ok, raise, conflict, duplicate_label}
use configurable_crm.Work.Labels.{Label, Board, create_label}
use configurable_crm.Work.Tidy.{Request, change, perform, IsTidy, perform-IsTidy}
use configurable_crm.Tests.Edits.{a_lead}

abbrev vip : Label
vip = record { id = 1; name = "vip"; color = none; sort_order = 0; is_archived = false }

abbrev board : Board
board = record { labels = vip ∷ []; links = (50, 1) ∷ []; leads = a_lead ∷ [] }

abbrev lower : String → String
lower s = s

abbrev or_board : Result Board → Board
or_board (ok b) = b
or_board (raise e) = board

abbrev request : Request
request = change 1 (some "hot") (some "#f00")

refuses_twice : create_label lower 2 "vip" none board ≡ raise (conflict duplicate_label)
unfolding create_label
refuses_twice = refl

perform-IsTidy_example : IsTidy lower (or_board (perform lower request board))
unfolding perform find
perform-IsTidy_example =
    perform-IsTidy lower request board (or_board (perform lower request board)) refl (refl, tt)
      (omega arith, (λ n. ground arith), (λ x y. ground arith))
