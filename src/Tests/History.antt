-- ===== src/Tests/History.antt =====
-- An account's history on the small bank.
use agents_playground.Prelude.{none, ◌≡◌, arith}
use agents_playground.History.{Filters, history, list_transactions}
use agents_playground.History.Cursors.{read_on, read_on-history}
use agents_playground.History.Pages.{pages_from, list_transactions-history}
use agents_playground.Tests.Bank.{bank}

abbrev everything : Filters
everything = record {
  from_time = none;
  to_time = none;
  type = none;
  min_cents = none;
  max_cents = none;
}

read_on-history_example :
    read_on 9 1 everything 1 none bank.transactions ≡ history 1 everything bank.transactions
unfolding history
read_on-history_example =
    read_on-history 1 everything bank.transactions 1 9 (omega arith) (omega arith)

list_transactions-history_example :
    pages_from 1 everything 2
      (list_transactions 1 everything 1 2 bank.transactions).total_pages
      1
      bank.transactions
    ≡ history 1 everything bank.transactions
list_transactions-history_example =
    list_transactions-history 1 everything 2 bank.transactions (omega arith)
