-- ===== src/Examples/Channels.antt =====
-- A channel for one value (packages/core/src/channel/index.ts).
use workit.Prelude.{ℕ, ◌≡◌, refl, false, none, some, List, [], ◌∷◌, ◌++◌}
use workit.Channel.{
  Channel, Call, absent, live, sends, receives, closes, aborts, create_channel, run,
}
use workit.Channel.Invariant.{IsQuiet, create-run-IsQuiet}
use workit.Channel.Order.{history, delivered}
use mathlib.Core.List.{Sublist}
use workit.Channel.Delivery.{offered, run-history, delivered-run-sublist}
use workit.Channel.Promises.{IsAccounted, create-run-IsAccounted}

abbrev one : Channel ℕ ℕ
one = record {
  capacity = 1;
  buffer = [];
  senders = [];
  receivers = [];
  close_reason = none;
  is_closed = false;
  listeners = [];
  next_id = 0;
  settled = [];
}

abbrev busy : List (Call ℕ ℕ)
busy =
    sends 5 absent
    ∷ sends 6 live
    ∷ receives live
    ∷ sends 7 live
    ∷ aborts 3 (some 1)
    ∷ closes none
    ∷ []

abbrev calm : List (Call ℕ ℕ)
calm = sends 5 absent ∷ sends 6 live ∷ receives live ∷ []

create-run-IsQuiet_example : IsQuiet (run one busy)
unfolding create_channel
create-run-IsQuiet_example = create-run-IsQuiet (some 1) one busy refl

create-run-IsAccounted_example : IsAccounted (run one busy) 3
unfolding create_channel
create-run-IsAccounted_example = create-run-IsAccounted (some 1) one busy 3 refl

run-history_example : history (run one calm) ≡ history one ++ offered calm
run-history_example = run-history one calm refl refl

delivered-run-sublist_example :
    Sublist (delivered (run one busy).settled) (history one ++ offered busy)
delivered-run-sublist_example = delivered-run-sublist one busy
