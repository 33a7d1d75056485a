-- ===== src/History.antt =====
-- Reading an account's history (bank/money.js): the filter, pages by number and pages by cursor.
pub mod Sorted
pub mod Cursors
pub mod Pages
use agents_playground.Prelude.{
  ℕ, zero, suc, ◌+◌, ◌-◌, ◌*◌, ◌/◌, ℤ, pos, ltb_ℤ, abs, Bool, true, false, Option, none, some, List,
  [], ◌∷◌, ◌++◌, ◌==◌, ◌&&◌, ◌||◌, ltb, leb, max, length, take, drop, keep, reverse_onto,
  if◌then◌else◌,
}
use agents_playground.Db.{Entry, EntryKind}

-- A row with its `seq`, which counts insertions.
pub record Row : Type 0 where
  pub seq : ℕ
  pub entry : Entry

abbrev pub numbered : List Entry → List Row
numbered [] = []
numbered (e ∷ es) = record { seq = length es; entry = e } ∷ numbered es

-- `ORDER BY created_at DESC, seq DESC`: which of two rows comes first.
abbrev pub precedes : ℕ → ℕ → ℕ → ℕ → Bool
precedes at seq at' seq' = ltb at' at || (at' == at && ltb seq' seq)

abbrev pub is_newer : Row → Row → Bool
is_newer a b = precedes a.entry.created_at a.seq b.entry.created_at b.seq

abbrev pub insert_newest : Row → List Row → List Row
insert_newest r [] = r ∷ []
insert_newest r (x ∷ xs) = if is_newer r x then r ∷ x ∷ xs else x ∷ insert_newest r xs

abbrev pub newest_first : List Row → List Row
newest_first [] = []
newest_first (r ∷ rs) = insert_newest r (newest_first rs)

-- The values that the filter's `type` may have.
pub data EntryType : Type 0 where
  money_in bill loan money_out deposit transfer : EntryType

pub record Filters : Type 0 where
  pub from_time : Option ℕ
  pub to_time : Option ℕ
  pub type : Option EntryType
  pub min_cents : Option ℕ
  pub max_cents : Option ℕ

abbrev is_bill : EntryKind → Bool
is_bill EntryKind.bill_payment = true
is_bill k = false

abbrev is_loan : EntryKind → Bool
is_loan EntryKind.loan_disbursement = true
is_loan k = false

abbrev is_deposit : EntryKind → Bool
is_deposit EntryKind.opening = true
is_deposit EntryKind.deposit = true
is_deposit k = false

abbrev is_transfer : EntryKind → Bool
is_transfer EntryKind.transfer_in = true
is_transfer EntryKind.transfer_out = true
is_transfer k = false

abbrev pub has_type : EntryType → Entry → Bool
has_type EntryType.money_in e = ltb_ℤ (pos 0) e.amount_cents
has_type EntryType.bill e = is_bill e.kind
has_type EntryType.loan e = is_loan e.kind
has_type EntryType.money_out e = ltb_ℤ e.amount_cents (pos 0)
has_type EntryType.deposit e = is_deposit e.kind
has_type EntryType.transfer e = is_transfer e.kind

-- A condition that is only there when its value is.
abbrev pub where_given : {A : Type 0} → Option A → (A → Bool) → Bool
where_given none p = true
where_given (some a) p = p a

-- The period's start is inclusive and its end exclusive; the amount is compared without its sign.
unfoldable pub transaction_filter : ℕ → Filters → Row → Bool
transaction_filter account_id f r =
    r.entry.account_id == account_id
    && where_given f.from_time (λ t. leb t r.entry.created_at)
    && where_given f.to_time (λ t. ltb r.entry.created_at t)
    && where_given f.type (λ t. has_type t r.entry)
    && where_given f.min_cents (λ c. leb c (abs r.entry.amount_cents))
    && where_given f.max_cents (λ c. leb (abs r.entry.amount_cents) c)

-- What a filter selects, newest first.
unfoldable pub history : ℕ → Filters → List Entry → List Row
unfolding transaction_filter
history account_id f es = keep (transaction_filter account_id f) (newest_first (numbered es))

-- A page by number, with the total for paging.
pub record NumberedPage : Type 0 where
  pub transactions : List Row
  pub page : ℕ
  pub page_size : ℕ
  pub total : ℕ
  pub total_pages : ℕ

-- `Math.max(1, Math.ceil(total / pageSize))`
abbrev pub pages_of : ℕ → ℕ → ℕ
pages_of total size = max 1 ((total + (size - 1)) / size)

unfoldable pub list_transactions : ℕ → Filters → ℕ → ℕ → List Entry → NumberedPage
unfolding history
list_transactions account_id f page size es =
    let rows = history account_id f es in
    record {
      transactions = take size (drop ((page - 1) * size) rows);
      page = page;
      page_size = size;
      total = length rows;
      total_pages = pages_of (length rows) size;
    }

-- A cursor is the place of the last row that was seen.
pub record Cursor : Type 0 where
  pub at : ℕ
  pub seq : ℕ

abbrev pub cursor_of : Row → Cursor
cursor_of r = record { at = r.entry.created_at; seq = r.seq }

-- `(created_at, seq) < (at, seq)`
abbrev pub is_older : Option Cursor → Row → Bool
is_older none r = true
is_older (some c) r = precedes c.at c.seq r.entry.created_at r.seq

abbrev pub last_row : List Row → Option Row
last_row [] = none
last_row (r ∷ []) = some r
last_row (r ∷ s ∷ rs) = last_row (s ∷ rs)

abbrev pub last_cursor : Option Row → Option Cursor
last_cursor none = none
last_cursor (some r) = some (cursor_of r)

pub record CursorPage : Type 0 where
  pub transactions : List Row
  pub total : ℕ
  pub has_next_page : Bool
  pub last : Option Cursor

-- One extra row says whether there is a next page.
abbrev pub page_of : ℕ → ℕ → List Row → CursorPage
page_of first total rows = record {
  transactions = take first rows;
  total = total;
  has_next_page = ltb first (length rows);
  last = last_cursor (last_row (take first rows));
}

-- `skip` exists only for the planted fault `bankCursorSkip`.
unfoldable pub transactions_after : ℕ → Filters → ℕ → Option Cursor → ℕ → List Entry → CursorPage
unfolding history
transactions_after account_id f first after skip es =
    page_of first (length (history account_id f es))
      (take (first + 1) (drop skip (keep (is_older after) (history account_id f es))))

-- Oldest first, as a statement reads.
unfoldable pub statement_transactions : ℕ → Filters → List Entry → List Row
unfolding history
statement_transactions account_id f es = take 5000 (reverse_onto (history account_id f es) [])
