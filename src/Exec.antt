-- ===== src/Exec.antt =====
-- Code that changes a state and may raise. What was written before a raise stays written, so the
-- state comes back beside an exception too. An `await` is a call of such code.
pub mod Triple
use geo_device.Prelude.{Bool, true, false, List, [], ◌∷◌, if◌then◌else◌}
use geo_device.Errors.{Exn}

pub data Result (A : Type 0) : Type 0 where
  ok : A → Result A
  raised : Exn → Result A

abbrev pub is_ok : {A : Type 0} → Result A → Bool
is_ok (ok a) = true
is_ok (raised e) = false

abbrev pub Exec : Type 0 → Type 0 → Type 0
Exec S A = S → Result A × S

abbrev continue : {S A B : Type 0} → Result A → (A → Exec S B) → Exec S B
continue (ok a) f s = f a s
continue (raised e) f s = (raised e, s)

abbrev handle : {S A : Type 0} → Result A → (Exn → Bool) → (Exn → Exec S A) → Exec S A
handle (ok a) caught handler s = (ok a, s)
handle (raised e) caught handler s = if caught e then handler e s else (raised e, s)

module _ {S A : Type 0} where
  unfoldable pub pure : A → Exec S A
  pure a s = (ok a, s)

  unfoldable pub raise : Exn → Exec S A
  raise e s = (raised e, s)

  unfoldable pub lift : Result A → Exec S A
  lift r s = (r, s)

  unfoldable pub gets : (S → A) → Exec S A
  gets f s = (ok (f s), s)

  -- `try: m except caught as e: handler(e)`
  unfoldable pub try_except : Exec S A → (Exn → Bool) → (Exn → Exec S A) → Exec S A
  try_except m caught handler s = let (r, s') = m s in handle r caught handler s'

  -- What is left of a result when the cleanup behind it has ended: an error of the cleanup.
  unfoldable pub cleaned : Result A → Result (Unit {0}) × S → Result A × S
  cleaned r (ok t, s) = (r, s)
  cleaned r (raised e, s) = (raised e, s)

  -- `async with`, by the code that leaves it: this may raise too
  unfoldable pub with_exit : Exec S A → Exec S (Unit {0}) → Exec S A
  unfolding cleaned
  with_exit m leave s = let (r, s') = m s in cleaned r (leave s')

  -- `try: m finally: cleanup`, for a cleanup that does not raise
  unfoldable pub try_finally : Exec S A → (S → S) → Exec S A
  try_finally m cleanup s = let (r, s') = m s in (r, cleanup s')

unfoldable pub modify : {S : Type 0} → (S → S) → Exec S (Unit {0})
modify f s = (ok tt, f s)

infixl 10 ◌>>=◌ ◌>>◌
unfoldable pub ◌>>=◌ : {S A B : Type 0} → Exec S A → (A → Exec S B) → Exec S B
unfolding pure raise lift gets modify try_except try_finally
◌>>=◌ m f s = let (r, s') = m s in continue r f s'

abbrev pub ◌>>◌ : {S A B : Type 0} → Exec S A → Exec S B → Exec S B
m >> n = m >>= λ _. n

-- `for x in xs: body(x)`
unfoldable pub for_each : {S A : Type 0} → List A → (A → Exec S (Unit {0})) → Exec S (Unit {0})
for_each [] body = pure tt
for_each (x ∷ xs) body = body x >> for_each xs body
