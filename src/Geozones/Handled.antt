-- ===== src/Geozones/Handled.antt =====
-- Who a request acts for, and what its answer may show.
use geo_device.Prelude.{
  ◌≡◌, ◌≢◌, ◌↔◌, refl, subst, inl, inr, Bool, true, Option, List, String, In, All, string_key, leb,
}
use geo_device.Errors.{Exn, app_error, http_exception}
use geo_device.Exec.{Result, ok, raised, lift}
use geo_device.Exec.Triple.{
  Triple, Outcome, Triple-pure, Triple-raise, Triple-bind, Triple-try, Triple-if,
}
use geo_device.Geozones.{GeozoneResponse, Table}
use geo_device.Geozones.Http.{
  Answer, shows, fails, validate, success_status, answer_error, refuse, handle_user, handle,
}
use geo_device.Geozones.Isolation.{Kept, Shown, respond-Shown}
use geo_device.Geozones.Requests.{Request, retrieves, updates}
use geo_device.Geozones.Rows.{IsTable}
use geo_device.Pings.{Float}
use geo_device.Routes.{get_current_user, or_blank}
use geo_device.Routes.Guards.{IsUserId, guards-agree}

module _ {W : Type 0} (table : Table W) (rows saved : W → List GeozoneResponse)
    (strip : String → String) (le lt : Float → Float → Bool) (request : Request) where
  -- An answer that shows rows shows them to a user that was let in, for a request that passes; they
  -- are the user's.
  abbrev pub IsOwn : String → Answer → Type 0
  IsOwn user_id (shows status page) =
      IsUserId user_id
      × (validate le lt request ≡ true)
      × (status ≡ success_status request)
      × All (λ r. r.user_id ≡ user_id) page
  IsOwn user_id (fails status) = Unit

  module _ (laws : IsTable table rows saved) (user_id : String) (base : List GeozoneResponse) where
    abbrev Others : W → Type 0
    Others = Kept table rows saved laws user_id base

    abbrev OthersAfter : Exn → W → Type 0
    OthersAfter e = Others

    abbrev Answered : Answer → W → Type 0
    Answered answer w = IsOwn user_id answer × Others w

    answer_error-Answered : (e : Exn) → Triple (OthersAfter e) (answer_error e) Answered OthersAfter
    unfolding answer_error
    answer_error-Answered (app_error exc) = Triple-pure _ (λ w h. (tt, h))
    answer_error-Answered (http_exception status detail) = Triple-pure _ (λ w h. (tt, h))
    answer_error-Answered e = Triple-raise _ (λ w h. h)

    refuse-Answered :
        (r : Request) → Triple Others (refuse table strip le lt user_id r) Answered OthersAfter
    unfolding refuse
    refuse-Answered (updates id payload) =
        Triple-if (leb 1 id) _ _
          (λ e.
            Triple-bind (Shown table rows saved laws user_id base) _ _
              (respond-Shown table rows saved laws user_id base (retrieves id))
              (λ page. Triple-pure _ (λ w h. (tt, h.1))))
          (λ e. Triple-pure _ (λ w h. (tt, h)))
    refuse-Answered r = Triple-pure _ (λ w h. (tt, h))

    handle_user-Answered :
        IsUserId user_id
        → Triple Others (handle_user table strip le lt user_id request) Answered OthersAfter
    unfolding handle_user
    handle_user-Answered let_in =
        Triple-if (validate le lt request) _ _
          (λ e.
            Triple-bind (Shown table rows saved laws user_id base) _ _
              (respond-Shown table rows saved laws user_id base request)
              (λ page. Triple-pure _ (λ w h. ((let_in, e, refl, h.0), h.1))))
          (λ e. refuse-Answered request)

  module _ (header : Option String) (laws : IsTable table rows saved)
      (base : List GeozoneResponse) where
    abbrev user : String
    user = strip (or_blank header)

    abbrev LetIn : String → W → Type 0
    LetIn user_id w = ((user_id ≡ user) × IsUserId user) × Others laws user base w

    guard-LetIn :
        Triple
          (Others laws user base)
          (lift (get_current_user strip header))
          LetIn
          (OthersAfter laws user base)
    unfolding lift
    guard-LetIn = elim (guards-agree strip header) [
      | inl (let_in, e, _) ↦ rw e (record { at = λ w h. ((refl, let_in), h) })
      | inr (_, (detail, e), _) ↦ rw e (record { at = λ w h. h })
    ]

    handle_let_in :
        (user_id : String)
        → user_id ≡ user
        → IsUserId user
        → Triple
            (Others laws user base)
            (handle_user table strip le lt user_id request)
            (Answered laws user base)
            (OthersAfter laws user base)
    handle_let_in user_id e let_in = rw e (handle_user-Answered laws user base let_in)

    handle-Answered :
        Triple
          (Others laws user base)
          (handle table strip le lt header request)
          (Answered laws user base)
          (OthersAfter laws user base)
    unfolding handle
    handle-Answered =
        Triple-try (OthersAfter laws user base) _ (λ e. true) answer_error
          (Triple-bind LetIn _ _ guard-LetIn
            (λ user_id. record { at = λ w h. (handle_let_in user_id h.0.0 h.0.1).at w h.1 }))
          (λ e c w h. h) (λ e c. answer_error-Answered laws user base e)

  answered_parts :
      (user_id : String) (laws : IsTable table rows saved) (base : List GeozoneResponse)
      (result : Result Answer) (w : W)
      → Outcome (Answered laws user_id base) (OthersAfter laws user_id base) result w
      → Others laws user_id base w × ((answer : Answer) → result ≡ ok answer → IsOwn user_id answer)
  answered_parts user_id laws base (ok answer) w h =
      (h.1, (λ a e. subst (IsOwn user_id) (ok_inj e) h.0))
    where
      ok_inj : {a b : Answer} → ok a ≡ ok b → a ≡ b
      ok_inj e = cc
  answered_parts user_id laws base (raised x) w h = (h, (λ a e. absurd (raised_ne e)))
    where
      raised_ne : {a : Answer} → raised x ≢ ok a
      raised_ne e = cc

  -- Under the documented behaviour of the statements, from a clean transaction: whatever the header
  -- and the request, and however it ends, the committed rows of all users but the one that the
  -- header names, stripped, are the same afterwards. An answer that shows rows is for a header that
  -- the guard lets in and a request within its bounds, with the status of the route, and all the
  -- rows are the user's.
  pub handle-IsOwn :
      (header : Option String) (w : W)
      → IsTable table rows saved
      → rows w ≡ saved w
      → ((r : GeozoneResponse)
          → r.user_id ≢ strip (or_blank header)
          → In r (saved (handle table strip le lt header request w).1) ↔ In r (saved w))
        × ((answer : Answer)
            → (handle table strip le lt header request w).0 ≡ ok answer
            → IsOwn (strip (or_blank header)) answer)
  handle-IsOwn header w laws clean =
      let start : Others laws (strip (or_blank header)) (saved w) w =
        ((λ r m. rw clean ((λ h. h), (λ h. h))), (λ r m. ((λ h. h), (λ h. h)))) in
      let (others, own) =
        answered_parts (strip (or_blank header)) laws (saved w) _ _
          ((handle-Answered header laws (saved w)).at w start) in
      (others.1, own)
