-- ===== src/Money/Transfer.antt =====
-- `transfer` (bank/money.js): the replay of a key, the planted race, the move in a transaction, and
-- what happens when the same key arrives twice at once.
use agents_playground.Prelude.{
  truthy, Bool, true, false, not, Option, none, some, first, if◌then◌else◌,
}
use agents_playground.Db.{
  Error, ok, err, Action, pure, throw, throw_if, select, row_or_throw, transaction, ◌>>=◌, ◌>>◌,
}
use agents_playground.Money.Balances.{has_id, covers}
use agents_playground.Money.Transfers.{
  move_money, find_transfer, find_transfer_by_key, TransferView, TransferRequest, move_of,
}

-- `try { … } catch (error) { … }`
abbrev pub catch : {A : Type 0} → Action A → (Error → Action A) → Action A
catch m handler db = let (r, db') = m db in elim r [ ok a ↦ (ok a, db') | err e ↦ handler e db' ]

-- What `transfer` answers: `findTransfer` may find nothing, and a replay is marked.
abbrev pub Answer : Type 0
Answer = Option TransferView × Bool

-- INTENTIONAL DEFECT (bankTransferRace): the balance is read here, and the money is only taken
-- after a wait in which other requests run.
unfoldable pub race_check : TransferRequest → Action (Unit {0})
race_check r = do
  row ← row_or_throw (← select (λ db. first (has_id r.from.id) db.accounts))
  throw_if (not (covers r.amount_cents row)) Error.insufficient_funds

-- The same key arrived twice at once: the second insert hit the unique key, its transaction rolled
-- back, and the first transfer stands. Any other error is thrown on.
unfoldable pub on_conflict : TransferRequest → Error → Action Answer
on_conflict r Error.unique_violation = do
  existing ← select (find_transfer_by_key r.user_id (truthy r.key))
  elim existing [ none ↦ throw Error.unique_violation | some t ↦ pure (some t, true) ]
on_conflict r e = throw e

unfoldable pub committed_transfer : TransferRequest → Action Answer
committed_transfer r = do
  id ← transaction (move_money (move_of r))
  t ← select (find_transfer id)
  pure (t, false)

-- From the wait to the end.
unfoldable pub settle : TransferRequest → Action Answer
unfolding committed_transfer on_conflict
settle r = catch (committed_transfer r) (on_conflict r)

-- What `transfer` does when the key is new.
unfoldable pub new_transfer : TransferRequest → Action Answer
unfolding race_check settle
new_transfer r = if r.race then race_check r >> settle r else settle r

unfoldable pub transfer : TransferRequest → Action Answer
unfolding new_transfer
transfer r = do
  existing ← select (find_transfer_by_key r.user_id (truthy r.key))
  elim existing [ none ↦ new_transfer r | some t ↦ pure (some t, true) ]
