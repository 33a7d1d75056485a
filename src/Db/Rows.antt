-- ===== src/Db/Rows.antt =====
-- The rows of the bank's tables (bank/schema.sql), with the columns that bank/*.js reads and
-- writes. Ids are UUIDs, which are only compared: numbers here. Amounts are whole cents.
use agents_playground.Prelude.{ℕ, ℤ, Bool, String, Option, List}

pub data AccountKind : Type 0 where
  checking savings : AccountKind

-- `bank_money_accounts`
pub record Account : Type 0 where
  pub id : ℕ
  pub user_id : ℕ
  pub number : String
  pub kind : AccountKind
  pub name : String
  pub balance_cents : ℤ
  pub created_at : ℕ

-- The values that the CHECK on `bank_transactions.kind` allows.
pub data EntryKind : Type 0 where
  opening deposit transfer_in transfer_out bill_payment : EntryKind
  loan_disbursement crypto_buy crypto_sell card_purchase : EntryKind

-- `bank_transactions`: one row of an account's history.
pub record Entry : Type 0 where
  pub id : ℕ
  pub account_id : ℕ
  pub kind : EntryKind
  pub amount_cents : ℤ
  pub balance_after_cents : ℤ
  pub description : String
  pub memo : String
  pub counterparty : String
  pub transfer_id : Option ℕ
  pub created_at : ℕ

-- `bank_transfers`
pub record Transfer : Type 0 where
  pub id : ℕ
  pub user_id : ℕ
  pub from_account_id : ℕ
  pub to_account_id : ℕ
  pub amount_cents : ℕ
  pub memo : String
  pub idempotency_key : Option String
  pub created_at : ℕ

-- The kinds of `bank_notifications` that the modelled modules write.
pub data NoteKind : Type 0 where
  money_received loan_decided request_received request_answered : NoteKind
  scheduled_paid scheduled_failed card_declined : NoteKind
  order_filled order_failed price_alert : NoteKind

-- Where a notification leads: a fixed page, or `/bank/accounts/<id>`.
pub data Link : Type 0 where
  page : String → Link
  account_page : ℕ → Link

-- `bank_notifications`
pub record Notification : Type 0 where
  pub id : ℕ
  pub user_id : ℕ
  pub kind : NoteKind
  pub title : String
  pub body : String
  pub link : Link
  pub amount_cents : Option ℤ
  pub read_at : Option ℕ
  pub created_at : ℕ

-- `bank_payees`; a deleted payee keeps its row.
pub record Payee : Type 0 where
  pub id : ℕ
  pub user_id : ℕ
  pub name : String
  pub reference : String
  pub deleted_at : Option ℕ

-- `bank_bill_payments`
pub record BillPayment : Type 0 where
  pub id : ℕ
  pub user_id : ℕ
  pub account_id : ℕ
  pub payee_id : ℕ
  pub amount_cents : ℕ
  pub memo : String
  pub idempotency_key : Option String
  pub created_at : ℕ

pub data RequestStatus : Type 0 where
  pending paid declined cancelled : RequestStatus

-- `bank_money_requests`
pub record MoneyRequest : Type 0 where
  pub id : ℕ
  pub requester_id : ℕ
  pub to_account_id : ℕ
  pub payer_id : ℕ
  pub payer_account_number : String
  pub amount_cents : ℕ
  pub memo : String
  pub status : RequestStatus
  pub transfer_id : Option ℕ
  pub answered_at : Option ℕ

pub data LoanStatus : Type 0 where
  pending approved rejected : LoanStatus

-- `bank_loans`
pub record Loan : Type 0 where
  pub id : ℕ
  pub user_id : ℕ
  pub account_id : ℕ
  pub amount_cents : ℕ
  pub term_months : ℕ
  pub apr_basis_points : ℤ
  pub monthly_payment_cents : ℤ
  pub total_interest_cents : ℤ
  pub purpose : String
  pub status : LoanStatus
  pub decision_note : String
  pub decided_by : Option ℕ
  pub decided_at : Option ℕ

pub data CardStatus : Type 0 where
  active frozen : CardStatus

pub data FrozenBy : Type 0 where
  customer admin : FrozenBy

-- `bank_cards`
pub record Card : Type 0 where
  pub id : ℕ
  pub user_id : ℕ
  pub account_id : ℕ
  pub number : List ℕ
  pub expires : String
  pub cvv : String
  pub status : CardStatus
  pub frozen_by : Option FrozenBy
  pub limit_cents : ℕ

pub data Reason : Type 0 where
  frozen over_limit insufficient_funds : Reason

-- `bank_card_charges`: `status` is approved where there is no reason.
pub record CardCharge : Type 0 where
  pub id : ℕ
  pub card_id : ℕ
  pub merchant : String
  pub amount_cents : ℕ
  pub reason : Option Reason
  pub charged_on : ℕ

-- A calendar day in UTC, `YYYY-MM-DD`; months count from 1.
pub record Date : Type 0 where
  pub year : ℕ
  pub month : ℕ
  pub day : ℕ

pub data Repeat : Type 0 where
  once weekly monthly : Repeat

pub data ScheduleStatus : Type 0 where
  active done failed cancelled : ScheduleStatus

-- `bank_scheduled_payments`; `last_result` is whether the last run was paid.
pub record Schedule : Type 0 where
  pub id : ℕ
  pub user_id : ℕ
  pub account_id : ℕ
  pub payee_id : ℕ
  pub amount_cents : ℕ
  pub memo : String
  pub repeat : Repeat
  pub anchor_day : ℕ
  pub next_due : Date
  pub status : ScheduleStatus
  pub runs : ℕ
  pub last_run_on : Option Date
  pub last_result : Option Bool

-- `bank_clocks`
pub record Clock : Type 0 where
  pub user_id : ℕ
  pub offset_days : ℕ
