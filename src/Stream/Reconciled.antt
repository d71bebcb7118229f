-- ===== src/Stream/Reconciled.antt =====
-- What `reconcile_backlog` does to the counter.
use geo_device.Prelude.{
  ℕ, zero, suc, ◌+◌, ◌<◌, ◌≤◌, ◌≡◌, ◌≢◌, inl, inr, refl, ap, ◌≟◌, ite, if_neg, if_pos, nat_key,
  string_key, sym, ◌∙◌, true, false, Option, none, some, List, [], ◌∷◌, length, ◌==◌, Bool-cases,
  arith,
}
use geo_device.Prelude.Int.{ℤ, pos, negsuc, neg_part}
use geo_device.Constants.{stream, group, pending_pings_key}
use geo_device.Pings.{Entry}
use geo_device.Errors.{Exn}
use geo_device.Exec.{Result, ok, raised, ◌>>=◌}
use geo_device.Services.{Redis, GroupInfo}
use geo_device.Stream
use geo_device.Stream.{
  publish_commands, ack_commands, pings_count, entry_backlog, backlog_of, or_zero,
}
use geo_device.Stream.Counter.{Server, IsGroup, IsServer, value_of}
use geo_device.Trace.{Run}

raised_ne : {A : Type 0} {x : Exn} {a : A} → raised x ≢ ok a
raised_ne e = cc

with_counter : (s : Server) {i : ℤ} → i ≡ s.counter → s ≡ record s { counter = i }
with_counter s e = cc

ok_inj : {A : Type 0} {a b : A} → ok a ≡ ok b → a ≡ b
ok_inj e = cc

nil_of-length : (xs : List Entry) → length xs ≤ 0 → xs ≡ []
nil_of-length [] h = refl
nil_of-length (x ∷ xs) h = absurd (omega arith)

entry_backlog-IsGroup :
    (reply : List GroupInfo) (g : GroupInfo)
    → IsGroup reply g
    → entry_backlog reply ≡ or_zero g.lag + or_zero g.pending
unfolding entry_backlog
entry_backlog-IsGroup [] g h = absurd h.listed
entry_backlog-IsGroup (x ∷ reply) g h = elim (x.name ≟ group) [
  | yes p ↦ let same : x ≡ g = h.only x (inl refl) p in rw (if_pos (x.name ≟ group) p, same) refl
  | no n ↦
      let rest : IsGroup reply g = record {
        listed = elim h.listed [ inl q ↦ absurd (n (ap (λ y. y.name) q ∙ h.named)) | inr m ↦ m ];
        named = h.named;
        only = λ g' m e. h.only g' (inr m) e;
      } in
      rw (if_neg (x.name ≟ group) n) (entry_backlog-IsGroup reply g rest)
]

ite_positive : (n : ℕ) (x y : ℤ) → 0 < n → ite (n ≟ 0) x y ≡ y
ite_positive n x y h = ground arith

ite_null : (n : ℕ) (x y : ℤ) → n ≡ 0 → ite (n ≟ 0) x y ≡ x
ite_null n x y h = ground arith

ite_zero : (n : ℕ) (x y : ℤ) → (n == 0) ≡ true → ite (n ≟ 0) x y ≡ x
ite_zero n x y e = ground arith

ite_not_zero : (n : ℕ) (x y : ℤ) → (n == 0) ≡ false → ite (n ≟ 0) x y ≡ y
ite_not_zero n x y e = ground arith

module _ {W : Type 0} (redis : Redis W) (view : W → Server) (laws : IsServer redis view) where
  -- The write that may follow the read of the counter.
  reset_counter :
      (v : Option ℤ) (r : Run W)
      → value_of v ≡ (view r.world).counter
      → (Stream.reset_pending redis (backlog_of v) r).0 ≡ ok tt
      → view (Stream.reset_pending redis (backlog_of v) r).1.world
        ≡ record (view r.world) { counter = neg_part (view r.world).counter }
  unfolding Stream.reset_pending backlog_of
  reset_counter none r e done = with_counter (view r.world) (rw (sym e) refl)
  reset_counter (some (negsuc n)) r e done = with_counter (view r.world) (rw (sym e) refl)
  reset_counter (some (pos zero)) r e done = with_counter (view r.world) (rw (sym e) refl)
  reset_counter (some (pos (suc n))) r e done =
      let z : (suc n == 0) ≡ false = ground arith in
      rw (sym e, z, Stream.reset_pending)
        (laws.sets 0 r.world (rw (z, Stream.reset_pending) at done))

  -- The counter is read off the server as it was.
  reset_read :
      (result : Result (Option ℤ)) (r : Run W)
      → (redis.get pending_pings_key r.world).0 ≡ result
      → ((Stream.get_backlog redis >>= Stream.reset_pending redis) r).0 ≡ ok tt
      → view ((Stream.get_backlog redis >>= Stream.reset_pending redis) r).1.world
        ≡ record (view r.world) { counter = neg_part (view r.world).counter }
  unfolding Stream.get_backlog ◌>>=◌
  reset_read (raised x) r e done = absurd (raised_ne (rw (e, Stream.get_backlog) at done))
  reset_read (ok v) r e done =
      rw (e, Stream.get_backlog)
        (rw (laws.get_keeps r.world) at (
          reset_counter v (record r { world = (redis.get pending_pings_key r.world).1 })
            (laws.gets v r.world e ∙ ap (λ s. s.counter) (sym (laws.get_keeps r.world)))
            (rw (e, Stream.get_backlog) at done)))

  -- What `reconcile_backlog` leaves, by the backlog that it makes of the reply.
  abbrev IsReset : Run W → Type 0
  IsReset r =
      (reply : List GroupInfo) × ((redis.xinfo_groups stream r.world).0 ≡ ok reply)
      × (view (Stream.reconcile_backlog redis r).1.world ≡ record (view r.world) {
        counter =
            ite (entry_backlog reply ≟ 0) (neg_part (view r.world).counter) (view r.world).counter;
      })

  reconcile_result :
      (result : Result (List GroupInfo)) (r : Run W)
      → (redis.xinfo_groups stream r.world).0 ≡ result
      → (Stream.reconcile_backlog redis r).0 ≡ ok tt
      → IsReset r
  unfolding Stream.reconcile_backlog Stream.get_entry_backlog ◌>>=◌
  reconcile_result (raised x) r e done =
      absurd (raised_ne (rw (e, Stream.reconcile_backlog) at done))
  reconcile_result (ok reply) r e done =
      let same : view (redis.xinfo_groups stream r.world).1 ≡ view r.world =
        laws.groups_keep r.world in
      elim (Bool-cases (entry_backlog reply == 0)) [
        | inl z ↦ (
          reply,
          e,
          rw (e, Stream.reconcile_backlog, z, ite_zero _ _ _ z)
              (rw same at (
                reset_read _ (record r { world = (redis.xinfo_groups stream r.world).1 }) refl
                  (rw (e, Stream.reconcile_backlog, z) at done))),
        )
        | inr n ↦ (reply, e, rw (e, Stream.reconcile_backlog, n, ite_not_zero _ _ _ n, same) refl)
      ]

  module _ (r : Run W) (reply : List GroupInfo) (g : GroupInfo) where
    abbrev before : Server
    before = view r.world

    abbrev after : Server
    after = view (Stream.reconcile_backlog redis r).1.world

    -- What is left, by the lag and the pending entries of the group.
    abbrev pub Reconciled : Type 0
    Reconciled =
        (after.entries ≡ before.entries)
        × ((lag pending : ℕ)
            → g.lag ≡ some lag
            → g.pending ≡ some pending
            → (0 < length before.entries → after.counter ≡ before.counter)
              × (0 < lag + pending → after.counter ≡ before.counter)
              × (lag + pending ≡ 0
                  → (before.entries ≡ []) × (after.counter ≡ neg_part before.counter)))
        × (g.lag ≡ none → g.pending ≡ some 0 → after.counter ≡ neg_part before.counter)

    left :
        (redis.xinfo_groups stream r.world).0 ≡ ok reply
        → IsGroup reply g
        → (Stream.reconcile_backlog redis r).0 ≡ ok tt
        → after ≡ record before {
          counter =
              ite (or_zero g.lag + or_zero g.pending ≟ 0) (neg_part before.counter) before.counter;
        }
    left answer is_group done =
        let (reply', e, reset) = reconcile_result _ r refl done in
        let same : reply' ≡ reply = ok_inj (sym e ∙ answer) in
        rw (same, entry_backlog-IsGroup reply g is_group) at reset

    -- Under the documented behaviour of redis, and where its reply has the group of the program:
    -- `reconcile_backlog`, if it returns, leaves the entries as they are. Where redis tells the lag
    -- of the group, the counter stays too if an entry waits, or if the lag or the number of pending
    -- entries is positive; if both are 0 then no entry waits, a positive counter becomes 0, and a
    -- negative one stays negative. Where redis cannot tell the lag and nothing is pending, the
    -- counter is reset just so, whatever waits.
    pub reconcile-counter :
        (redis.xinfo_groups stream r.world).0 ≡ ok reply
        → IsGroup reply g
        → (Stream.reconcile_backlog redis r).0 ≡ ok tt
        → Reconciled
    reconcile-counter answer is_group done =
        let end = left answer is_group done in
        (
          ap (λ s. s.entries) end,
          (λ lag pending e e'.
              let bound = laws.groups r.world reply g lag pending answer is_group e e' in
              let sum : or_zero g.lag + or_zero g.pending ≡ lag + pending = rw (e, e') refl in
              (
                (λ h. ap (λ s. s.counter) end ∙ ite_positive _ _ _ (omega (arith, sum, bound))),
                (λ h. ap (λ s. s.counter) end ∙ ite_positive _ _ _ (omega (arith, sum))),
                (λ h. (
                  nil_of-length before.entries (omega (arith, bound)),
                  ap (λ s. s.counter) end ∙ ite_null _ _ _ (omega (arith, sum)),
                )),
              )),
          (λ e e'. ap (λ s. s.counter) end ∙ ite_null _ _ _ (rw (e, e') refl)),
        )
