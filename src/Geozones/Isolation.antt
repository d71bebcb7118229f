-- ===== src/Geozones/Isolation.antt =====
-- A user's requests and the rows of the others.
use geo_device.Prelude.{
  ℕ, ◌≡◌, ◌≢◌, ◌↔◌, refl, sym, subst, Option, none, some, List, [], ◌∷◌, String, In, All, All-mono,
  string_key,
}
use geo_device.Errors.{Exn}
use geo_device.Exec.{Result, ok, raised, pure, ◌>>◌}
use geo_device.Exec.Triple.{
  Triple, Outcome, Triple-pure, Triple-raise, Triple-bind, Triple-try, Triple-lift, Triple-weaken,
}
use geo_device.Geozones.{
  GeozoneCreateRequest, GeozoneUpdateRequest, GeozoneResponse, Table, create, list, retrieve,
  update, delete, by_id_and_user, user_is, found, conclude, missing, values_of, is_integrity_error,
}
use geo_device.Geozones.Requests.{
  Request, creates, lists, retrieves, deletes, updates, respond, get_geozone, create_geozone,
  list_geozones, update_geozone, delete_geozone,
}
use geo_device.Geozones.Rows.{IsTable, Unchanged}
use geo_device.Geozones.Statements.{
  Apart, Apart-Unchanged, statement, insert-Own, give_up-Apart, update_one-Apart, delete_one-Apart,
  select_one-Apart, commit-Own, commit-Apart,
}

module _ {W : Type 0} (table : Table W) (rows saved : W → List GeozoneResponse)
    (laws : IsTable table rows saved) (user_id : String) (base : List GeozoneResponse) where
  open table use {select_page, select_one, update_one, delete_one, commit}

  abbrev pub Kept : W → Type 0
  Kept = Apart table rows saved laws user_id base

  abbrev pub Ended : Exn → W → Type 0
  Ended e = Kept

  abbrev Mine : GeozoneResponse → W → Type 0
  Mine row w = (row.user_id ≡ user_id) × Kept w

  abbrev Leaving : {A : Type 0} → A → W → Type 0
  Leaving a = Kept

  found-Own :
      (id : ℕ) (one : Option GeozoneResponse)
      → Triple
          (λ w. ((r : GeozoneResponse) → one ≡ some r → r.user_id ≡ user_id) × Kept w)
          (found table id one)
          Mine
          Ended
  unfolding found
  found-Own id none = Triple-raise (missing table id) (λ w h. h.1)
  found-Own id (some row) = Triple-pure row (λ w h. (h.0 row refl, h.1))

  retrieve-Own : (id : ℕ) → Triple Kept (retrieve table id user_id) Mine Ended
  unfolding retrieve
  retrieve-Own id =
      Triple-bind (λ one w. ((r : GeozoneResponse) → one ≡ some r → r.user_id ≡ user_id) × Kept w) _
        _ ((select_one-Apart table rows saved laws user_id base) id) (found-Own id)

  conclude-Own :
      (id : ℕ) (one : Option GeozoneResponse)
      → Triple
          (λ w. ((r : GeozoneResponse) → one ≡ some r → r.user_id ≡ user_id) × Kept w)
          (conclude table id one)
          Mine
          Ended
  unfolding conclude
  conclude-Own id none =
      Triple-weaken _ (λ w h. h.1)
        ((give_up-Apart table rows saved laws user_id base) (missing table id) Mine)
  conclude-Own id (some row) =
      Triple-weaken (commit >> pure row) (λ w h. (h.0 row refl, h.1))
        ((commit-Own table rows saved laws user_id base) row)

  conclude-Apart : (id : ℕ) (one : Option ℕ) → Triple Kept (conclude table id one) Leaving Ended
  unfolding conclude
  conclude-Apart id none =
      (give_up-Apart table rows saved laws user_id base) (missing table id) Leaving
  conclude-Apart id (some n) =
      Triple-bind Leaving commit (λ t. pure n) (commit-Apart table rows saved laws user_id base)
        (λ t. Triple-pure n (λ w a. a))

  create-Own :
      (payload : GeozoneCreateRequest) → Triple Kept (create table user_id payload) Mine Ended
  unfolding create
  create-Own payload =
      Triple-try Ended _ is_integrity_error _
        (Triple-bind Mine _ _ ((insert-Own table rows saved laws user_id base) payload)
          (commit-Own table rows saved laws user_id base))
        (λ e c w a. a) (λ e c. (give_up-Apart table rows saved laws user_id base) _ Mine)

  update-Own :
      (geozone : GeozoneResponse) (payload : GeozoneUpdateRequest)
      → geozone.user_id ≡ user_id
      → Triple Kept (update table geozone payload) Mine Ended
  unfolding update
  update-Own geozone payload e =
      Triple-bind Leaving _ _ (Triple-lift (values_of payload)) (λ values.
        Triple-bind (λ one w. ((r : GeozoneResponse) → one ≡ some r → r.user_id ≡ user_id) × Kept w)
          _ _
          (Triple-try Ended (update_one (by_id_and_user geozone.id geozone.user_id) values)
            is_integrity_error _
            (rw e ((update_one-Apart table rows saved laws user_id base) geozone.id values))
            (λ x c w a. a) (λ x c. (give_up-Apart table rows saved laws user_id base) _ _))
          (conclude-Own geozone.id))

  delete-Apart :
      (geozone : GeozoneResponse)
      → geozone.user_id ≡ user_id
      → Triple Kept (delete table geozone) Leaving Ended
  unfolding delete
  delete-Apart geozone e =
      Triple-bind Leaving _ _
        (Triple-bind Leaving _ _
          (subst (λ u. Triple Kept (delete_one (by_id_and_user geozone.id u)) Leaving Ended) (sym e)
            ((delete_one-Apart table rows saved laws user_id base) geozone.id))
          (conclude-Apart geozone.id))
        (λ n. Triple-pure tt (λ w a. a))

  -- What a request returns: rows of the user.
  abbrev pub Shown : List GeozoneResponse → W → Type 0
  Shown page w = All (λ r. r.user_id ≡ user_id) page × Kept w

  pub respond-Shown : (request : Request) → Triple Kept (respond table user_id request) Shown Ended
  unfolding respond create_geozone list_geozones get_geozone update_geozone delete_geozone list
  respond-Shown (creates payload) =
      Triple-bind Mine _ _ (create-Own payload)
        (λ row. Triple-pure (row ∷ []) (λ w h. ((h.0, tt), h.1)))
  respond-Shown (lists limit offset) =
      (statement table rows saved laws user_id base)
        (select_page (user_is user_id ∷ []) limit offset) _ (Unchanged table rows saved) Shown
        (laws.selects_page (user_is user_id ∷ []) limit offset)
        (λ w w' page a h. (
          All-mono _ _ page (λ r m. m.0) h.0,
          (Apart-Unchanged table rows saved laws user_id base) w w' h.1 a,
        ))
        (λ w w' a h. (Apart-Unchanged table rows saved laws user_id base) w w' h a)
  respond-Shown (retrieves id) =
      Triple-bind Mine _ _ (retrieve-Own id)
        (λ row. Triple-pure (row ∷ []) (λ w h. ((h.0, tt), h.1)))
  respond-Shown (updates id payload) =
      Triple-bind Mine _ _
        (Triple-bind Mine _ _ (retrieve-Own id)
          (λ geozone. record { at = λ w h. (update-Own geozone payload h.0).at w h.1 }))
        (λ row. Triple-pure (row ∷ []) (λ w h. ((h.0, tt), h.1)))
  respond-Shown (deletes id) =
      Triple-bind Leaving _ _
        (Triple-bind Mine _ _ (retrieve-Own id)
          (λ geozone. record { at = λ w h. (delete-Apart geozone h.0).at w h.1 }))
        (λ t. Triple-pure [] (λ w a. (tt, a)))

Outcome-parts :
    {S A : Type 0} (Q : A → Type 0) (I : S → Type 0) (r : Result A) (s : S)
    → Outcome (λ a t. Q a × I t) (λ e. I) r s
    → I s × ((a : A) → r ≡ ok a → Q a)
Outcome-parts {A = A} Q I (ok a) s h = (h.1, (λ b e. subst Q (unwrap a b e) h.0))
  where
    unwrap : (a b : A) → ok a ≡ ok b → a ≡ b
    unwrap a b e = cc
Outcome-parts Q I (raised x) s h = (h, (λ b e. absurd (cc)))

module _ {W : Type 0} (table : Table W) (rows saved : W → List GeozoneResponse) where
  -- Under the documented behaviour of the statements, from a clean transaction: whatever request a
  -- user makes and however it ends, the committed rows of every other user are the same afterwards;
  -- a response shows rows of the user only.
  pub respond-isolated :
      (user_id : String) (request : Request) (w : W)
      → IsTable table rows saved
      → rows w ≡ saved w
      → ((r : GeozoneResponse)
          → r.user_id ≢ user_id
          → In r (saved (respond table user_id request w).1) ↔ In r (saved w))
        × ((page : List GeozoneResponse)
            → (respond table user_id request w).0 ≡ ok page
            → All (λ r. r.user_id ≡ user_id) page)
  respond-isolated user_id request w laws clean =
      let start : Apart table rows saved laws user_id (saved w) w =
        ((λ r m. rw clean ((λ h. h), (λ h. h))), (λ r m. ((λ h. h), (λ h. h)))) in
      let end = respond table user_id request w in
      let (apart, shown) =
        Outcome-parts (All (λ r. r.user_id ≡ user_id))
          (Apart table rows saved laws user_id (saved w)) end.0 end.1
          ((respond-Shown table rows saved laws user_id (saved w) request).at w start) in
      (apart.1, shown)
