-- ===== src/Geozones/Statements.antt =====
-- What the statements of a user's requests do to the rows of the others.
use geo_device.Prelude.{
  ℕ, ◌≡◌, ◌≢◌, ◌↔◌, inl, inr, arith, Option, none, some, List, String, In, string_key,
}
use geo_device.Errors.{Exn}
use geo_device.Exec.{Exec, Result, ok, raised, pure, ◌>>◌}
use geo_device.Exec.Triple.{Triple, Outcome, Triple-pure, Triple-raise, Triple-bind}
use geo_device.Geozones.{
  GeozoneCreateRequest, GeozoneResponse, Condition, Values, Table, new_geozone, by_id_and_user,
  give_up,
}
use geo_device.Geozones.Rows.{
  IsTable, Unchanged, Matches, SameOthers, Replaced, Deleted, IsSelected,
}

module _ {W : Type 0} (table : Table W) (rows saved : W → List GeozoneResponse)
    (laws : IsTable table rows saved) (user_id : String) (base : List GeozoneResponse) where
  open table use {insert, select_page, select_one, update_one, delete_one, commit, rollback}

  abbrev pub Same : List GeozoneResponse → Type 0
  Same rs = (r : GeozoneResponse) → r.user_id ≢ user_id → In r rs ↔ In r base

  -- The rows of all other users are those of `base`, in the transaction and committed.
  abbrev pub Apart : W → Type 0
  Apart w = Same (rows w) × Same (saved w)

  abbrev pub ApartAfter : Exn → W → Type 0
  ApartAfter e = Apart

  pub Apart-Unchanged : (w w' : W) → Unchanged table rows saved w w' → Apart w → Apart w'
  Apart-Unchanged w w' h a = rw (h.0, h.1) a

  -- A statement keeps the others' rows if what the law says of it does.
  pub statement :
      {A : Type 0} (m : Exec W A) (Q : W → A → W → Type 0) (E : W → W → Type 0) (R : A → W → Type 0)
      → ((w : W) → Outcome (Q w) (λ e. E w) (m w).0 (m w).1)
      → ((w w' : W) (a : A) → Apart w → Q w a w' → R a w')
      → ((w w' : W) → Apart w → E w w' → Apart w')
      → Triple Apart m R ApartAfter
  statement {A = A} m Q E R law good bad = record {
    at = λ w p. outcome w p (m w).0 (m w).1 (law w);
  }
    where
      outcome :
          (w : W) (p : Apart w) (r : Result A) (w' : W)
          → Outcome (Q w) (λ e. E w) r w'
          → Outcome R ApartAfter r w'
      outcome w p (ok a) w' h = good w w' a p h
      outcome w p (raised e) w' h = bad w w' p h

  -- A row of the user, with the others' rows kept.
  abbrev pub Own : GeozoneResponse → W → Type 0
  Own row w = (row.user_id ≡ user_id) × Apart w

  abbrev pub Keeping : {A : Type 0} → A → W → Type 0
  Keeping a = Apart

  user_of :
      (r row : GeozoneResponse) → some row ≡ some r → row.user_id ≡ user_id → r.user_id ≡ user_id
  user_of r row e h = cc

  same_user : (p q : GeozoneResponse) → p ≡ q → p.user_id ≡ q.user_id
  same_user p q e = cc

  pub insert-Own :
      (payload : GeozoneCreateRequest)
      → Triple Apart (insert (new_geozone user_id payload)) Own ApartAfter
  unfolding new_geozone
  insert-Own payload =
      statement (insert (new_geozone user_id payload)) _ (Unchanged table rows saved) Own
        (laws.inserts (new_geozone user_id payload))
        (λ w w' row a h.
          let mine : row.user_id ≡ user_id = h.0.user_id in
          (mine, ((λ r n. rw h.1 (ground (arith, a.0 r n, mine, same_user row r))), rw h.2 a.1)))
        (λ w w' a h. Apart-Unchanged w w' h a)

  pub commit-Apart : Triple Apart commit Keeping ApartAfter
  commit-Apart =
      statement commit _ _ Keeping laws.commits (λ w w' t a h. rw (h.0, h.1) (a.0, a.0))
        (λ w w' a h. elim h.1 [ inl e ↦ rw (h.0, e) (a.0, a.0) | inr e ↦ rw (h.0, e) a ])

  rollback-Apart : Triple Apart rollback Keeping ApartAfter
  rollback-Apart =
      statement rollback _ _ Keeping laws.rolls_back (λ w w' t a h. rw (h.0, h.1) (a.1, a.1))
        (λ w w' a h. Apart-Unchanged w w' h a)

  pub give_up-Apart :
      {A : Type 0} (e : Exn) (R : A → W → Type 0)
      → Triple Apart (give_up table {A = A} e) R ApartAfter
  unfolding give_up
  give_up-Apart e R = Triple-bind Keeping rollback _ rollback-Apart (λ t. Triple-raise e (λ w a. a))

  -- The conditions of the statements on one row of the user.
  abbrev pub mine : ℕ → List Condition
  mine id = by_id_and_user id user_id

  not_mine : (id : ℕ) (r : GeozoneResponse) → r.user_id ≢ user_id → ¬ Matches (mine id) r
  unfolding by_id_and_user
  not_mine id r n m = n m.1.0

  mine_user : (id : ℕ) (r : GeozoneResponse) → Matches (mine id) r → r.user_id ≡ user_id
  unfolding by_id_and_user
  mine_user id r m = m.1.0

  others_kept :
      (id : ℕ) (w w' : W)
      → Apart w
      → SameOthers (mine id) (rows w) (rows w') × (saved w' ≡ saved w)
      → Apart w'
  others_kept id w w' a h = ((λ r n. ground (arith, a.0 r n, h.0 r, not_mine id r n)), rw h.1 a.1)

  -- A statement on one row of the user, or on none.
  pub update_one-Apart :
      (id : ℕ) (values : Values)
      → Triple Apart
          (update_one (mine id) values)
          (λ one w. ((r : GeozoneResponse) → one ≡ some r → r.user_id ≡ user_id) × Apart w)
          ApartAfter
  update_one-Apart id values =
      statement (update_one (mine id) values) _
        (λ w w'. SameOthers (mine id) (rows w) (rows w') × (saved w' ≡ saved w)) _
        (laws.updates_one (mine id) values) replaced (others_kept id)
    where
      replaced :
          (w w' : W) (one : Option GeozoneResponse)
          → Apart w
          → Replaced (mine id) one (rows w) (rows w') × (saved w' ≡ saved w)
          → ((r : GeozoneResponse) → one ≡ some r → r.user_id ≡ user_id) × Apart w'
      replaced w w' none a h = ((λ r e. cc), rw (h.0, h.1) a)
      replaced w w' (some row) a h =
          let own : row.user_id ≡ user_id = mine_user id row h.0.0 in
          (
            (λ r e. user_of r row e own),
            (
              (λ r m. ground (arith, a.0 r m, h.0.1 r, not_mine id r m, own, same_user row r)),
              rw h.1 a.1,
            ),
          )

  pub delete_one-Apart : (id : ℕ) → Triple Apart (delete_one (mine id)) Keeping ApartAfter
  delete_one-Apart id =
      statement (delete_one (mine id)) _
        (λ w w'. SameOthers (mine id) (rows w) (rows w') × (saved w' ≡ saved w)) Keeping
        (laws.deletes_one (mine id)) deleted (others_kept id)
    where
      deleted :
          (w w' : W) (one : Option ℕ)
          → Apart w
          → Deleted (mine id) one (rows w) (rows w') × (saved w' ≡ saved w)
          → Apart w'
      deleted w w' none a h = rw (h.0, h.1) a
      deleted w w' (some n) a h =
          ((λ r m. ground (arith, a.0 r m, h.0 r, not_mine id r m)), rw h.1 a.1)

  selected_user :
      (id : ℕ) (one : Option GeozoneResponse) (rs : List GeozoneResponse)
      → IsSelected (mine id) one rs
      → (r : GeozoneResponse) → one ≡ some r
      → r.user_id ≡ user_id
  selected_user id none rs h r e = absurd (cc)
  selected_user id (some row) rs h r e = user_of r row e (mine_user id row h.1)

  pub select_one-Apart :
      (id : ℕ)
      → Triple Apart
          (select_one (mine id))
          (λ one w. ((r : GeozoneResponse) → one ≡ some r → r.user_id ≡ user_id) × Apart w)
          ApartAfter
  select_one-Apart id =
      statement (select_one (mine id)) _ (Unchanged table rows saved) _ (laws.selects_one (mine id))
        (λ w w' one a h. (selected_user id one (rows w) h.0, Apart-Unchanged w w' h.1 a))
        (λ w w' a h. Apart-Unchanged w w' h a)

  pub commit-Own : (row : GeozoneResponse) → Triple (Own row) (commit >> pure row) Own ApartAfter
  commit-Own row = record {
    at = λ w h.
        (Triple-bind {Q = Own} Keeping commit (λ t. pure row) commit-Apart
            (λ t. Triple-pure row (λ x a. (h.0, a)))).at
          w h.1;
  }
