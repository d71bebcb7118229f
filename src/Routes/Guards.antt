-- ===== src/Routes/Guards.antt =====
-- What the two guards let in.
use Prim.Native.String.{len}
use geo_device.Prelude.{◌≡◌, ◌⊎◌, ◌<◌, ◌≤◌, arith, Bool-cases, inl, inr, Option, String, ltb, ◌==◌}
use geo_device.Errors.{http_exception, websocket_exception}
use geo_device.Exec.{ok, raised}
use geo_device.Routes.{get_current_user, get_ws_user, or_blank, max_id_length}

-- An id that the program lets in.
abbrev pub IsUserId : String → Type 0
IsUserId s = (0 < len s) × (len s ≤ 64)

module _ (strip : String → String) (given : Option String) where
  -- `X-User-ID` and `user_id` are accepted under the same condition: the stripped value has from 1
  -- to 64 characters, and is then the user. Any other value is refused, a header with the status
  -- 401, a query with the code 1008.
  pub guards-agree :
      (IsUserId (strip (or_blank given))
        × (get_current_user strip given ≡ ok (strip (or_blank given)))
        × (get_ws_user strip given ≡ ok (strip (or_blank given))))
      ⊎ ((¬ IsUserId (strip (or_blank given)))
          × ((detail : String) × (get_current_user strip given
                ≡ raised (http_exception 401 detail)))
          × ((reason : String) × (get_ws_user strip given
                ≡ raised (websocket_exception 1008 reason))))
  unfolding get_current_user get_ws_user
  guards-agree =
      let s = strip (or_blank given) in
      elim (Bool-cases (len s == 0)) [
        | inl e ↦ inr (
          ground arith,
          ("X-User-ID header is required", ground arith),
          ("user_id query parameter is incorrect", ground arith),
        )
        | inr e ↦ elim (Bool-cases (ltb max_id_length (len s))) [
          | inl f ↦ inr (
            ground arith,
            ("X-User-ID doesn't follow supported format", ground arith),
            ("user_id query parameter is incorrect", ground arith),
          )
          | inr f ↦ inl (ground arith)
        ]
      ]
