-- ===== src/Pings/Sample.antt =====
-- Formats that read back what they wrote, to run the codec with.
use Prim.Native.Nat.{Ordering, compare as compare_ℕ}
use Prim.Native.Char.{Char, char, code, nul, IsLt, IsScalar}
use text.Mathlib.TextBridge.{to_list, of_list, to_list-of_list, of_list-to_list}
use text.Mathlib.TextEquality.{Char-path}
use geo_device.Prelude.{
  ℕ, zero, suc, ◌≡◌, refl, ap, ◌∙◌, Option, none, some, List, [], ◌∷◌, ◌++◌, map, String, ◌==◌,
  if◌then◌else◌,
}
use geo_device.Constants.{Bytes}
use geo_device.Errors.{value_error}
use geo_device.Exec.{Result, ok, raised}
use geo_device.Pings.{Offset, Datetime, Ping, PingJson, Formats}
use geo_device.Pings.Codec.{IsFaithful}

-- Numbers as words of one letter, each with an end.
unary : ℕ → List Char → List Char
unary zero rest = "b" ∷ rest
unary (suc n) rest = "a" ∷ unary n rest

bump : List ℕ → List ℕ
bump [] = []
bump (n ∷ ns) = suc n ∷ ns

numbers : List Char → List ℕ
numbers [] = []
numbers (c ∷ cs) = let rest = numbers cs in if code c == 97 then bump rest else 0 ∷ rest

numbers-unary : (n : ℕ) (cs : List Char) → numbers (unary n cs) ≡ n ∷ numbers cs
unfolding unary numbers bump
numbers-unary zero cs = refl
numbers-unary (suc n) cs = ap bump (numbers-unary n cs)

pub isoformat : Datetime → String
unfolding unary
isoformat t = elim t.tzinfo [
  | none ↦ of_list (unary t.wall [])
  | some o ↦ of_list (unary t.wall (unary o.seconds_east (unary o.seconds_west [])))
]

date_of : List ℕ → Result Datetime
date_of (wall ∷ []) = ok (record { wall = wall; tzinfo = none })
date_of (wall ∷ east ∷ west ∷ []) =
    ok (record { wall = wall; tzinfo = some (record { seconds_east = east; seconds_west = west }) })
date_of ns = raised value_error

pub fromisoformat : String → Result Datetime
fromisoformat s = date_of (numbers (to_list s))

fromisoformat-isoformat : (t : Datetime) → fromisoformat (isoformat t) ≡ ok t
unfolding isoformat fromisoformat date_of numbers
fromisoformat-isoformat t = go t.tzinfo refl
  where
    go : (tzinfo : Option Offset) → t.tzinfo ≡ tzinfo → fromisoformat (isoformat t) ≡ ok t
    go none e = rw (e, isoformat, to_list-of_list, numbers-unary) (cc)
    go (some o) e =
        rw (e, isoformat, to_list-of_list, numbers-unary, numbers-unary, numbers-unary) (cc)

-- Words of any numbers, each with an end.
spell : List (List ℕ) → Bytes
spell [] = []
spell (w ∷ ws) = map suc w ++ 0 ∷ spell ws

onto : ℕ → List (List ℕ) → List (List ℕ)
onto c [] = []
onto c (w ∷ ws) = (c ∷ w) ∷ ws

words : Bytes → List (List ℕ)
words [] = []
words (zero ∷ bs) = [] ∷ words bs
words (suc c ∷ bs) = onto c (words bs)

words-word : (w : List ℕ) (bs : Bytes) → words (map suc w ++ 0 ∷ bs) ≡ w ∷ words bs
unfolding words onto
words-word [] bs = refl
words-word (c ∷ w) bs = ap (onto c) (words-word w bs)

words-spell : (ws : List (List ℕ)) → words (spell ws) ≡ ws
unfolding words spell
words-spell [] = refl
words-spell (w ∷ ws) = words-word w (spell ws) ∙ ap (◌∷◌ w) (words-spell ws)

-- Characters as numbers: `IsScalar` by its cases.
abbrev Both : Ordering → Ordering → Type 0
Both Ordering.lt o = IsLt o
Both Ordering.eq o = ⊥
Both Ordering.gt o = ⊥

abbrev Scalar : Ordering → Ordering → Ordering → Type 0
Scalar Ordering.lt o p = Unit {0}
Scalar Ordering.eq o p = Both o p
Scalar Ordering.gt o p = Both o p

Both-Dec : (o p : Ordering) → Dec (Both o p)
Both-Dec Ordering.lt Ordering.lt = yes tt
Both-Dec Ordering.lt Ordering.eq = no (λ m. m)
Both-Dec Ordering.lt Ordering.gt = no (λ m. m)
Both-Dec Ordering.eq p = no (λ m. m)
Both-Dec Ordering.gt p = no (λ m. m)

Scalar-Dec : (o p q : Ordering) → Dec (Scalar o p q)
Scalar-Dec Ordering.lt p q = yes tt
Scalar-Dec Ordering.eq p q = Both-Dec p q
Scalar-Dec Ordering.gt p q = Both-Dec p q

IsScalar-Dec : (n : ℕ) → Dec (IsScalar n)
IsScalar-Dec n = Scalar-Dec (compare_ℕ n 55296) (compare_ℕ 57343 n) (compare_ℕ n 1114112)

char_at : (n : ℕ) → Dec (IsScalar n) → Char
char_at n (yes p) = char n p
char_at n (no _) = nul

char_at-code : (c : Char) (d : Dec (IsScalar (code c))) → char_at (code c) d ≡ c
unfolding char_at
char_at-code (char n p) (yes q) = Char-path (char n q) (char n p) refl
char_at-code (char n p) (no out) = absurd (out p)

text_of : List ℕ → List Char
text_of [] = []
text_of (n ∷ ns) = char_at n (IsScalar-Dec n) ∷ text_of ns

text_of-codes : (cs : List Char) → text_of (map code cs) ≡ cs
unfolding text_of
text_of-codes [] = refl
text_of-codes (c ∷ cs) = rw (char_at-code c, text_of-codes cs) refl

rows : List PingJson → List (List ℕ)
rows [] = []
rows ((device_id, lat, lon, at) ∷ js) =
    map code (to_list device_id)
    ∷ (lat.bits ∷ [])
    ∷ (lon.bits ∷ [])
    ∷ map code (to_list at)
    ∷ rows js

string_of : List ℕ → String
string_of w = of_list (text_of w)

string_of-codes : (s : String) → string_of (map code (to_list s)) ≡ s
unfolding string_of
string_of-codes s = rw (text_of-codes, of_list-to_list) refl

of_rows : List (List ℕ) → List PingJson
of_rows (device_id ∷ (lat ∷ []) ∷ (lon ∷ []) ∷ at ∷ ws) =
    (string_of device_id, record { bits = lat }, record { bits = lon }, string_of at) ∷ of_rows ws
of_rows ws = []

of_rows-rows : (js : List PingJson) → of_rows (rows js) ≡ js
unfolding of_rows rows
of_rows-rows [] = refl
of_rows-rows ((device_id, lat, lon, at) ∷ js) =
    rw (string_of-codes, string_of-codes, of_rows-rows js) refl

pub dumps : List PingJson → Bytes
dumps js = 0 ∷ spell (rows js)

pub loads : Bytes → Result (List PingJson)
loads [] = raised value_error
loads (b ∷ bs) = ok (of_rows (words bs))

loads-dumps : (js : List PingJson) → loads (dumps js) ≡ ok js
unfolding loads dumps
loads-dumps js = rw (words-spell, of_rows-rows) refl

abbrev pub formats : Formats
formats = record {
  isoformat = isoformat;
  fromisoformat = fromisoformat;
  dumps = dumps;
  loads = loads;
  dumps_alerts = λ hits. [];
  dumps_positions = dumps;
}

pub formats-IsFaithful : IsFaithful formats
unfolding dumps
formats-IsFaithful = record {
  date = fromisoformat-isoformat;
  bytes = loads-dumps;
  not_empty = λ js e. cc;
}

abbrev pub pings : List Ping
pings =
    record {
      device_id = "a";
      lat = record { bits = 3 };
      lon = record { bits = 4 };
      recorded_at = record { wall = 5; tzinfo = none };
    }
    ∷ record {
      device_id = "b";
      lat = record { bits = 6 };
      lon = record { bits = 7 };
      recorded_at = record {
        wall = 8;
        tzinfo = some (record { seconds_east = 3; seconds_west = 0 });
      };
    }
    ∷ []
