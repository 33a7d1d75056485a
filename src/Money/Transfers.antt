-- ===== src/Money/Transfers.antt =====
-- Transfers between accounts (bank/money.js): `moveMoney`, `transfer`, and looking a transfer up.
use agents_playground.Prelude.{
  ℕ, ℤ, pos, ◌-ℤ◌, String, text_eq, join, truthy, Bool, true, false, not, Option, none, some, List,
  ◌∷◌, ◌==◌, ◌&&◌, first, if◌then◌else◌,
}
use agents_playground.Db.{
  Account, Transfer, EntryKind, NoteKind, Link, Error, Action, Db, pure, throw, throw_if, select,
  row_or_throw, execute, random_uuid, ◌>>=◌, ◌>>◌,
}
use agents_playground.Notify.{notify}
use agents_playground.Money.Balances.{
  EntryData, insert_transaction, has_id, credit, debit, debit_unchecked,
}

-- The argument of `moveMoney`. `from` and `to` are rows that the caller read earlier.
pub record Move : Type 0 where
  pub user_id : ℕ
  pub from : Account
  pub to : Account
  pub amount_cents : ℕ
  pub memo : String
  pub key : Option String
  pub unchecked : Bool
  pub notify_recipient : Bool

-- `INSERT INTO bank_transfers`, under the unique constraint on (user_id, idempotency_key).
abbrev pub same_key : ℕ → String → Transfer → Bool
same_key user_id key t =
    t.user_id == user_id && elim t.idempotency_key [ none ↦ false | some k ↦ text_eq k key ]

abbrev pub key_taken : ℕ → Option String → List Transfer → Bool
key_taken user_id none ts = false
key_taken user_id (some key) ts = elim (first (same_key user_id key) ts) [
  | none ↦ false
  | some _ ↦ true
]

abbrev pub transfer_row : Move → ℕ → ℕ → Transfer
transfer_row m id now = record {
  id = id;
  user_id = m.user_id;
  from_account_id = m.from.id;
  to_account_id = m.to.id;
  amount_cents = m.amount_cents;
  memo = m.memo;
  idempotency_key = truthy m.key;
  created_at = now;
}

unfoldable pub insert_transfer : Move → ℕ → Action (Unit {0})
insert_transfer m id = do
  throw_if (← select (λ db. key_taken m.user_id (truthy m.key) db.transfers)) Error.unique_violation
  execute (λ db. record db { transfers = transfer_row m id db.now ∷ db.transfers })

abbrev pub out_entry : Move → ℕ → ℤ → EntryData
out_entry m id balance = record {
  account_id = m.from.id;
  kind = EntryKind.transfer_out;
  amount_cents = pos 0 -ℤ pos m.amount_cents;
  balance_after_cents = balance;
  description = join "Transfer to " m.to.number;
  memo = m.memo;
  counterparty = m.to.number;
  transfer_id = some id;
  created_at = none;
}

abbrev pub in_entry : Move → ℕ → ℤ → EntryData
in_entry m id balance = record {
  account_id = m.to.id;
  kind = EntryKind.transfer_in;
  amount_cents = pos m.amount_cents;
  balance_after_cents = balance;
  description = join "Transfer from " m.from.number;
  memo = m.memo;
  counterparty = m.from.number;
  transfer_id = some id;
  created_at = none;
}

-- Money to someone else: tell them.
unfoldable pub notify_receiver : Move → Action (Unit {0})
unfolding notify
notify_receiver m =
    if m.notify_recipient && not (m.to.user_id == m.user_id)
    then notify (record {
      user_id = m.to.user_id;
      kind = NoteKind.money_received;
      title = "Money received";
      body =
          if text_eq m.memo ""
          then join "From " m.from.number
          else join "From " (join m.from.number (join " · " m.memo));
      link = Link.account_page m.to.id;
      amount_cents = some (pos m.amount_cents);
    })
    else pure tt

abbrev pub take_money : Move → Action (Option Account)
take_money m =
    if m.unchecked then debit_unchecked m.from.id m.amount_cents else debit m.from.id m.amount_cents

abbrev pub row_or_broke : Option Account → Action Account
row_or_broke none = throw Error.insufficient_funds
row_or_broke (some r) = pure r

-- The rest of `moveMoney`, with the row that the debit returned and the row, if any, that the
-- credit returned.
unfoldable pub record_move : Move → Account → Option Account → Action ℕ
unfolding insert_transfer insert_transaction notify_receiver
record_move m debited credited = do
  id ← random_uuid
  insert_transfer m id
  insert_transaction (out_entry m id debited.balance_cents)
  receiver ← row_or_throw credited
  insert_transaction (in_entry m id receiver.balance_cents)
  notify_receiver m
  pure id

unfoldable pub move_money : Move → Action ℕ
unfolding debit debit_unchecked credit
move_money m = do
  debited ← row_or_broke (← take_money m)
  credited ← credit m.to.id m.amount_cents
  record_move m debited credited

-- A transfer as the API shows it, with the number of the account it went to.
pub record TransferView : Type 0 where
  pub id : ℕ
  pub from_account_id : ℕ
  pub to_account_number : String
  pub amount_cents : ℕ
  pub memo : String
  pub created_at : ℕ

abbrev pub to_transfer : Transfer → Account → TransferView
to_transfer t a = record {
  id = t.id;
  from_account_id = t.from_account_id;
  to_account_number = a.number;
  amount_cents = t.amount_cents;
  memo = t.memo;
  created_at = t.created_at;
}

-- The JOIN of `TRANSFER_SELECT`, on the transfer that a condition singles out.
abbrev pub join_account : Option Transfer → Db → Option TransferView
join_account none db = none
join_account (some t) db = elim (first (has_id t.to_account_id) db.accounts) [
  | none ↦ none
  | some a ↦ some (to_transfer t a)
]

unfoldable pub find_transfer : ℕ → Db → Option TransferView
find_transfer id db = join_account (first (λ t. t.id == id) db.transfers) db

unfoldable pub find_transfer_by_key : ℕ → Option String → Db → Option TransferView
find_transfer_by_key user_id none db = none
find_transfer_by_key user_id (some key) db =
    join_account (first (same_key user_id key) db.transfers) db

-- The argument of `transfer`; `race` is the planted defect `bankTransferRace`.
pub record TransferRequest : Type 0 where
  pub user_id : ℕ
  pub from : Account
  pub to : Account
  pub amount_cents : ℕ
  pub memo : String
  pub key : Option String
  pub race : Bool

abbrev pub move_of : TransferRequest → Move
move_of r = record {
  user_id = r.user_id;
  from = r.from;
  to = r.to;
  amount_cents = r.amount_cents;
  memo = r.memo;
  key = r.key;
  unchecked = r.race;
  notify_recipient = true;
}
