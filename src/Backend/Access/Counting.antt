-- ===== src/Backend/Access/Counting.antt =====
-- How the count of the active administrators changes with the tables.
use wi_fi_test_orchestrator.Prelude.{
  ℕ, ◌+◌, ◌≤◌, ◌≡◌, refl, Bool, false, some, List, [], ◌∷◌, ◌++◌, arith, ◌==◌, if◌then◌else◌, All,
  Bool-cases, inl, inr,
}
use wi_fi_test_orchestrator.Prelude.Table.{find, count, update, delete, find-eq-none}
use wi_fi_test_orchestrator.Prelude.Unique.{Unique}
use wi_fi_test_orchestrator.Backend.Access.{
  User, Role, UserRole, administrator_role, assignment, user_id_is, joined, count_active,
  is_administrator, disable,
}

abbrev pub user_key : User → ℕ
user_key user = user.id

-- A user who is no administrator has no row in the join.
pub is_administrator-joined :
    (roles : List Role) (rows : List UserRole) (k : ℕ)
    → is_administrator roles rows k ≡ false
    → joined roles rows k ≡ 0
unfolding is_administrator joined
is_administrator-joined roles [] k h = refl
is_administrator-joined roles (row ∷ rows) k h = ground (
  arith,
  find-eq-none (administrator_role row.role_id) roles,
  is_administrator-joined roles rows k,
)

-- Where one role is the administrator's, the join has a row for each assignment of it.
pub joined-count :
    (roles : List Role) (admin : ℕ) (rows : List UserRole) (k : ℕ)
    → ((r : ℕ) → count (administrator_role r) roles ≡ (if r == admin then 1 else 0))
    → joined roles rows k ≡ count (assignment k admin) rows
unfolding joined count
joined-count roles admin [] k only = refl
joined-count roles admin (row ∷ rows) k only =
    ground (arith, only row.role_id, joined-count roles admin rows k only)

pub joined-append :
    (roles : List Role) (rows more : List UserRole) (k : ℕ)
    → joined roles rows k ≤ joined roles (rows ++ more) k
unfolding joined
joined-append roles [] more k = omega arith
joined-append roles (row ∷ rows) more k = omega (arith, joined-append roles rows more k)

-- The assignments that `remove_role` deletes: of another user, or of a role that is not the
-- administrator's.
pub joined-delete :
    (roles : List Role) (rows : List UserRole) (u r k : ℕ)
    → (k == u) ≡ false
    → joined roles (delete (assignment u r) rows) k ≡ joined roles rows k
unfolding joined delete
joined-delete roles [] u r k off = refl
joined-delete roles (row ∷ rows) u r k off = ground (arith, joined-delete roles rows u r k off)

pub joined-delete_other :
    (roles : List Role) (rows : List UserRole) (u r k : ℕ)
    → count (administrator_role r) roles ≡ 0
    → joined roles (delete (assignment u r) rows) k ≡ joined roles rows k
unfolding joined delete
joined-delete_other roles [] u r k none_of_it = refl
joined-delete_other roles (row ∷ rows) u r k none_of_it =
    ground (arith, joined-delete_other roles rows u r k none_of_it)

-- Assignments that give no user fewer rows.
pub count_active-joined :
    (roles : List Role) (rows rows' : List UserRole) (users : List User)
    → ((k : ℕ) → joined roles rows k ≤ joined roles rows' k)
    → count_active roles rows users ≤ count_active roles rows' users
unfolding count_active
count_active-joined roles rows rows' [] more = omega arith
count_active-joined roles rows rows' (user ∷ users) more =
    ground (arith, more user.id, count_active-joined roles rows rows' users more)

-- Assignments that change the rows of one user only.
fresh-count_active :
    (roles : List Role) (rows rows' : List UserRole) (k j : ℕ) (users : List User)
    → k ≡ j
    → ((i : ℕ) → (i == k) ≡ false → joined roles rows' i ≡ joined roles rows i)
    → All (λ y. (user_key y == j) ≡ false) users
    → count_active roles rows users ≡ count_active roles rows' users
unfolding count_active
fresh-count_active roles rows rows' k j [] e same h = refl
fresh-count_active roles rows rows' k j (user ∷ users) e same h =
    ground (arith, same user.id, fresh-count_active roles rows rows' k j users e same h.1)

pub count_active-but_one :
    (roles : List Role) (rows rows' : List UserRole) (k : ℕ) (users : List User)
    → ((i : ℕ) → (i == k) ≡ false → joined roles rows' i ≡ joined roles rows i)
    → Unique user_key users
    → count_active roles rows users ≤ count_active roles rows' users + joined roles rows k
unfolding count_active
count_active-but_one roles rows rows' k [] same u = omega arith
count_active-but_one roles rows rows' k (user ∷ users) same u = elim (Bool-cases (user.id == k)) [
  | inl e ↦ ground (arith, fresh-count_active roles rows rows' k user.id users)
  | inr e ↦ ground (arith, same user.id e, count_active-but_one roles rows rows' k users same u.1)
]

-- The same where that user is not active.
pub count_active-inactive :
    (roles : List Role) (rows rows' : List UserRole) (k : ℕ) (users : List User) (x : User)
    → ((i : ℕ) → (i == k) ≡ false → joined roles rows' i ≡ joined roles rows i)
    → Unique user_key users
    → find (user_id_is k) users ≡ some x
    → x.is_active ≡ false
    → count_active roles rows users ≡ count_active roles rows' users
unfolding count_active find
count_active-inactive roles rows rows' k [] x same u h off = refl
count_active-inactive roles rows rows' k (user ∷ users) x same u h off =
    elim (Bool-cases (user.id == k)) [
      | inl e ↦ ground (arith, fresh-count_active roles rows rows' k user.id users)
      | inr e ↦
          ground (arith, same user.id e, count_active-inactive roles rows rows' k users x same u.1)
    ]

-- Disabling a user loses at most the rows of this user.
fresh-disable :
    (roles : List Role) (rows : List UserRole) (now k j : ℕ) (users : List User)
    → k ≡ j
    → All (λ y. (user_key y == j) ≡ false) users
    → count_active roles rows (update (user_id_is k) (disable now) users)
      ≡ count_active roles rows users
unfolding count_active update
fresh-disable roles rows now k j [] e h = refl
fresh-disable roles rows now k j (user ∷ users) e h =
    ground (arith, fresh-disable roles rows now k j users e h.1)

pub count_active-disable :
    (roles : List Role) (rows : List UserRole) (now k : ℕ) (users : List User)
    → Unique user_key users
    → count_active roles rows users
      ≤ count_active roles rows (update (user_id_is k) (disable now) users) + joined roles rows k
unfolding count_active update
count_active-disable roles rows now k [] u = omega arith
count_active-disable roles rows now k (user ∷ users) u = elim (Bool-cases (user.id == k)) [
  | inl e ↦ ground (arith, fresh-disable roles rows now k user.id users)
  | inr e ↦ ground (arith, count_active-disable roles rows now k users u.1)
]

-- Changes of a user that keep the identifier and the flag.
pub count_active-update :
    (roles : List Role) (rows : List UserRole) (p : User → Bool) (f : User → User)
    (users : List User)
    → ((x : User) → (f x).id ≡ x.id)
    → ((x : User) → (f x).is_active ≡ x.is_active)
    → count_active roles rows (update p f users) ≡ count_active roles rows users
unfolding count_active update
count_active-update roles rows p f [] id_kept flag_kept = refl
count_active-update roles rows p f (user ∷ users) id_kept flag_kept = ground (
  arith,
  id_kept user,
  flag_kept user,
  count_active-update roles rows p f users id_kept flag_kept,
)

pub count_active-append :
    (roles : List Role) (rows : List UserRole) (users more : List User)
    → count_active roles rows users ≤ count_active roles rows (users ++ more)
unfolding count_active
count_active-append roles rows [] more = omega arith
count_active-append roles rows (user ∷ users) more =
    omega (arith, count_active-append roles rows users more)
