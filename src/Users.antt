-- ===== src/Users.antt =====
-- The user hash tables of src/common.c: chains of users, doubly linked through `next` and
-- `prev_ptr`, which points at the pointer that points at the user.
pub mod Links
pub mod Chains
use dpmaster_x.Prelude.{ℕ, Bool, Option, none, some, ◌==◌, if◌then◌else◌}

-- What a `prev_ptr` points at: a table entry, or the field `next` of another user.
pub data Link : Type 0 where
  entry : ℕ → Link
  next_of : ℕ → Link

-- The table and the links of all users, which are named by their index in their array.
pub record Users : Type 0 where
  pub entries : ℕ → Option ℕ
  pub next : ℕ → Option ℕ
  pub prev_ptr : ℕ → Option Link

abbrev pub update {ℓ} : {A : Type ℓ} → (ℕ → A) → ℕ → A → ℕ → A
update f k v j = if j == k then v else f j

-- Com_UserHashTable_Init: the cleared table, over users that are cleared too.
unfoldable pub init : Users
init = record { entries = λ h. none; next = λ i. none; prev_ptr = λ i. none }

-- `user->next->prev_ptr = link`, if there is a next user
abbrev pub set_prev : Option ℕ → Option Link → (ℕ → Option Link) → ℕ → Option Link
set_prev none link prev = prev
set_prev (some j) link prev = update prev j link

-- Com_UserHashTable_Add
unfoldable pub add : Users → ℕ → ℕ → Users
add u user hash =
    let head = u.entries hash in
    record {
      entries = update u.entries hash (some user);
      next = update u.next user head;
      prev_ptr = set_prev head (some (next_of user)) (update u.prev_ptr user (some (entry hash)));
    }

-- `*link = value`. No user of a chain has a null `prev_ptr`.
abbrev pub write_link : Option Link → Option ℕ → Users → Users
write_link none value u = u
write_link (some (entry h)) value u = record u { entries = update u.entries h value }
write_link (some (next_of i)) value u = record u { next = update u.next i value }

-- Com_UserHashTable_Remove
unfoldable pub remove : Users → ℕ → Users
remove u user =
    let written = write_link (u.prev_ptr user) (u.next user) u in
    record written {
      prev_ptr = set_prev (written.next user) (written.prev_ptr user) written.prev_ptr;
    }
