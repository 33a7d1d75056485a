-- ===== src/Notify.antt =====
-- Notifications (bank/notify.js): what someone else did that this person should know about.
use agents_playground.Prelude.{
  ℕ, ℤ, String, Bool, Option, none, some, ◌∷◌, ◌==◌, ◌&&◌, take, keep, count, update_where, first,
  length, List, if◌then◌else◌,
}
use agents_playground.Db.{Db, Action, Notification, NoteKind, Link, random_uuid, ◌>>=◌, execute}
use mathlib.Core.Option

-- The second argument of `notify`.
pub record Note : Type 0 where
  pub user_id : ℕ
  pub kind : NoteKind
  pub title : String
  pub body : String
  pub link : Link
  pub amount_cents : Option ℤ

abbrev pub to_row : Note → ℕ → ℕ → Notification
to_row n id now = record {
  id = id;
  user_id = n.user_id;
  kind = n.kind;
  title = n.title;
  body = n.body;
  link = n.link;
  amount_cents = n.amount_cents;
  read_at = none;
  created_at = now;
}

-- Writes one notification, inside the caller's transaction.
unfoldable pub notify : Note → Action (Unit {0})
notify n = do
  id ← random_uuid
  execute (λ db. record db { notifications = to_row n id db.now ∷ db.notifications })

abbrev pub is_unread : Notification → Bool
is_unread n = elim n.read_at [ none ↦ Bool.true | some _ ↦ Bool.false ]

abbrev pub owned_by : ℕ → Notification → Bool
owned_by user_id n = n.user_id == user_id

-- The latest 30, and the number on the bell. `count_bug` is the planted defect
-- `bankNotificationCount`. The table is kept newest first.
unfoldable pub list_notifications : ℕ → Bool → Db → List Notification × ℕ
list_notifications user_id count_bug db = (
  take 30 (keep (owned_by user_id) db.notifications),
  if count_bug
      then count (owned_by user_id) db.notifications
      else count (λ n. owned_by user_id n && is_unread n) db.notifications,
)

abbrev pub stamp_read : ℕ → Notification → Notification
stamp_read now n = record n { read_at = elim n.read_at [ none ↦ some now | some t ↦ some t ] }

-- Only the owner's notification can be marked; anyone else's answers `none`.
unfoldable pub mark_read : ℕ → ℕ → Db → Option Notification × Db
mark_read user_id id db =
    let mine = λ (n : Notification). n.id == id && owned_by user_id n in
    (
      Option.map (stamp_read db.now) (first mine db.notifications),
      record db { notifications = update_where mine (stamp_read db.now) db.notifications },
    )

-- Marks all of a person's unread notifications as read, and says how many there were.
unfoldable pub mark_all_read : ℕ → Db → ℕ × Db
mark_all_read user_id db =
    let mine = λ (n : Notification). owned_by user_id n && is_unread n in
    (
      length (keep mine db.notifications),
      record db { notifications = update_where mine (stamp_read db.now) db.notifications },
    )
