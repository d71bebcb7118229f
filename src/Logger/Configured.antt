-- ===== src/Logger/Configured.antt =====
-- What `configure_logging` leaves, and that it may run again.
use geo_device.Prelude.{
  ℕ, ◌≡◌, refl, sym, ◌∙◌, ap, fun_ext, Bool, true, false, List, [], ◌∷◌, String, ite, ◌≟◌,
  string_key, All, String_discrete, In, inl, inr, if_neg,
}
use geo_device.Logger.{
  Log, Logging, hand_over, hand_over_all, server_loggers, configure_root, configure_logging,
}

-- A logger that hands its events over to the root.
abbrev pub quiet : Log → Log
quiet log = record log { handlers = []; propagate = true }

member : String → List String → Bool
member s [] = false
member s (t ∷ ts) = let rest = member s ts in ite (t ≟ s) true rest

quiet_if : Bool → Log → Log
quiet_if true log = quiet log
quiet_if false log = log

hand_over_all-names :
    (names : List String) (named : String → Log) (other : String)
    → hand_over_all names named other ≡ quiet_if (member other names) (named other)
unfolding hand_over_all hand_over member quiet_if
hand_over_all-names [] named other = refl
hand_over_all-names (name ∷ names) named other =
    hand_over_all-names names (hand_over name named) other
    ∙ same (name ≟ other) (member other names)
  where
    same :
        (d : Dec (name ≡ other)) (b : Bool)
        → quiet_if b (ite d (quiet (named other)) (named other))
          ≡ quiet_if (ite d true b) (named other)
    same (yes p) true = refl
    same (yes p) false = refl
    same (no n) b = refl

quiet_if_twice : (b : Bool) (log : Log) → quiet_if b (quiet_if b log) ≡ quiet_if b log
unfolding quiet_if
quiet_if_twice true log = refl
quiet_if_twice false log = refl

hand_over_all_twice :
    (names : List String) (named : String → Log)
    → hand_over_all names (hand_over_all names named) ≡ hand_over_all names named
hand_over_all_twice names named = fun_ext λ other.
    hand_over_all-names names (hand_over_all names named) other
    ∙ ap (quiet_if (member other names)) (hand_over_all-names names named other)
    ∙ quiet_if_twice (member other names) (named other)
    ∙ sym (hand_over_all-names names named other)

member_of-In : (s : String) (ts : List String) → member s ts ≡ true → In s ts
unfolding member
member_of-In s [] e = absurd (cc)
member_of-In s (t ∷ ts) e = elim (t ≟ s) [
  | yes p ↦ inl (p)
  | no n ↦ inr (member_of-In s ts (rw (if_neg _ n) at e))
]

-- `configure_logging` leaves the loggers of the server without a handler of their own and handing
-- their events over to the root, all other named loggers as they are, and nothing of an earlier
-- configuration: a second call with other settings has the effect of this call alone.
pub configure_logging-last :
    (level level' : ℕ) (is_dev is_dev' : Bool) (s : Logging)
    → (configure_logging level is_dev (configure_logging level' is_dev' s)
        ≡ configure_logging level is_dev s)
      × All
          (λ name. (configure_logging level is_dev s).named name ≡ quiet (s.named name))
          server_loggers
      × ((name : String)
          → (¬ In name server_loggers)
          → (configure_logging level is_dev s).named name ≡ s.named name)
unfolding configure_logging configure_root hand_over_all hand_over quiet_if String_discrete
configure_logging-last level level' is_dev is_dev' s = (
  ap (λ named. record (configure_logging level is_dev s) { named = named })
      (hand_over_all_twice server_loggers s.named),
  (refl, (refl, (refl, tt))),
  others,
)
  where
    kept :
        (name : String) (b : Bool)
        → member name server_loggers ≡ b
        → (¬ In name server_loggers)
        → quiet_if b (s.named name) ≡ s.named name
    kept name true e n = absurd (n (member_of-In name server_loggers e))
    kept name false e n = refl

    others :
        (name : String)
        → (¬ In name server_loggers)
        → (configure_logging level is_dev s).named name ≡ s.named name
    others name n = hand_over_all-names server_loggers s.named name ∙ kept name _ refl n
