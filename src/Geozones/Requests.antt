-- ===== src/Geozones/Requests.antt =====
-- app/domains/geozones/router.py and dependencies.py: what a request of a user does. The bounds of
-- the single parameters are checked before.
use geo_device.Prelude.{ℕ, List, [], ◌∷◌, String}
use geo_device.Exec.{Exec, pure, ◌>>=◌, ◌>>◌}
use geo_device.Geozones.{
  GeozoneCreateRequest, GeozoneUpdateRequest, GeozoneResponse, Table, create, list, retrieve,
  update, delete,
}

pub data Request : Type 0 where
  creates : GeozoneCreateRequest → Request
  lists : (limit offset : ℕ) → Request
  retrieves deletes : (id : ℕ) → Request
  updates : (id : ℕ) → GeozoneUpdateRequest → Request

module _ {W : Type 0} (table : Table W) (user_id : String) where
  unfoldable pub get_geozone : ℕ → Exec W GeozoneResponse
  unfolding retrieve
  get_geozone id = retrieve table id user_id

  unfoldable pub create_geozone : GeozoneCreateRequest → Exec W GeozoneResponse
  unfolding create
  create_geozone payload = create table user_id payload

  unfoldable pub list_geozones : ℕ → ℕ → Exec W (List GeozoneResponse)
  unfolding list
  list_geozones limit offset = list table user_id limit offset

  unfoldable pub update_geozone : ℕ → GeozoneUpdateRequest → Exec W GeozoneResponse
  unfolding get_geozone update ◌>>=◌
  update_geozone id payload = do geozone ← get_geozone id; update table geozone payload

  unfoldable pub delete_geozone : ℕ → Exec W (Unit {0})
  unfolding get_geozone delete ◌>>=◌
  delete_geozone id = do geozone ← get_geozone id; delete table geozone

  -- The rows that the response shows.
  unfoldable pub respond : Request → Exec W (List GeozoneResponse)
  unfolding create_geozone list_geozones get_geozone update_geozone delete_geozone pure ◌>>=◌
  respond (creates payload) = do row ← create_geozone payload; pure (row ∷ [])
  respond (lists limit offset) = list_geozones limit offset
  respond (retrieves id) = do row ← get_geozone id; pure (row ∷ [])
  respond (updates id payload) = do row ← update_geozone id payload; pure (row ∷ [])
  respond (deletes id) = delete_geozone id >> pure []
