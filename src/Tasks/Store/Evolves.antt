-- ===== src/Tasks/Store/Evolves.antt =====
-- Changes of the inbox: rows are added under new keys, and rows that are not in a terminal state
-- are changed.
use wi_fi_test_orchestrator.Prelude.{
  ℕ, ◌≡◌, refl, Bool, true, false, not, none, some, List, [], ◌∷◌, ◌++◌, arith, if◌then◌else◌,
}
use wi_fi_test_orchestrator.Prelude.Table.{find, update, find-append, find-update}
use wi_fi_test_orchestrator.Prelude.Unique.{Unique, Unique-append, Unique-update}
use wi_fi_test_orchestrator.Tasks.State.{
  TaskState, received, queued, is_state, is_terminal, ensure_transition,
}
use wi_fi_test_orchestrator.Tasks.Store.Rows.{Store, InboxRow, inbox_task, task_in, set_state}

abbrev pub task_key : InboxRow → ℕ
task_key row = row.task_id

abbrev pub UniqueTasks : Store → Type 0
UniqueTasks s = Unique task_key s.inbox

pub data Evolves : List InboxRow → List InboxRow → Type 0 where
  same : {xs : List InboxRow} → Evolves xs xs
  add :
      {xs : List InboxRow} (row : InboxRow)
      → find (inbox_task row.task_id) xs ≡ none
      → Evolves xs (xs ++ row ∷ [])
  change :
      {xs : List InboxRow} (p : InboxRow → Bool) (f : InboxRow → InboxRow)
      → ((x : InboxRow) → (f x).task_id ≡ x.task_id)
      → ((x : InboxRow) → (f x).idempotency_key ≡ x.idempotency_key)
      → ((x : InboxRow) → p x ≡ true → is_terminal x.state ≡ false)
      → Evolves xs (update p f xs)
  both : {xs ys zs : List InboxRow} → Evolves xs ys → Evolves ys zs → Evolves xs zs

pub Evolves-Unique :
    {xs ys : List InboxRow} → Evolves xs ys → Unique task_key xs → Unique task_key ys
Evolves-Unique same u = u
Evolves-Unique {xs} (add row e) u = Unique-append task_key xs row u e
Evolves-Unique {xs} (change p f k i t) u = Unique-update task_key p f xs k u
Evolves-Unique (both a b) u = Evolves-Unique b (Evolves-Unique a u)

pub Evolves-terminal :
    {xs ys : List InboxRow} (k : ℕ) (r : InboxRow)
    → Evolves xs ys
    → is_terminal r.state ≡ true
    → find (inbox_task k) xs ≡ some r
    → find (inbox_task k) ys ≡ some r
Evolves-terminal k r same t h = h
Evolves-terminal {xs} k r (add row e) t h = ground (arith, find-append (inbox_task k) xs (row ∷ []))
Evolves-terminal {xs} k r (change p f kk i live) t h =
    ground (arith, live r, find-update p (inbox_task k) f xs (λ x. ground (arith, kk x)))
Evolves-terminal k r (both a b) t h = Evolves-terminal k r b t (Evolves-terminal k r a t h)

pub Evolves-if :
    {A : Type 0} {xs : List InboxRow} (b : Bool) (m n : A × Store)
    → (b ≡ true → Evolves xs m.1.inbox)
    → (b ≡ false → Evolves xs n.1.inbox)
    → Evolves xs (if b then m else n).1.inbox
Evolves-if true m n hm hn = hm refl
Evolves-if false m n hm hn = hn refl

pub live_of_transition :
    (s t u : TaskState) → ensure_transition s t ≡ true → is_state u s ≡ true → is_terminal u ≡ false
unfolding ensure_transition is_terminal
live_of_transition s t u h e = ground arith

pub task_in-live :
    (id : ℕ) (s t : TaskState) (x : InboxRow)
    → ensure_transition s t ≡ true
    → task_in id s x ≡ true
    → is_terminal x.state ≡ false
task_in-live id s t x h e = ground (arith, live_of_transition s t x.state)

pub move-Evolves :
    (now id : ℕ) (current target : TaskState) {xs : List InboxRow}
    → ensure_transition current target ≡ true
    → Evolves xs (update (task_in id current) (set_state now target) xs)
move-Evolves now id current target e =
    change _ _ (λ x. refl) (λ x. refl) (λ x p. task_in-live id current target x e p)

-- Whether a guard `if not b: raise` lets pass.
pub passes : (b : Bool) → not b ≡ false → b ≡ true
passes b h = ground arith

pub received-live : (u : TaskState) → is_state u received ≡ true → is_terminal u ≡ false
unfolding is_terminal
received-live u e = ground arith

pub queued-live : (u : TaskState) → is_state u queued ≡ true → is_terminal u ≡ false
unfolding is_terminal
queued-live u e = ground arith
