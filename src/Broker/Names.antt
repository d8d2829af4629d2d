-- ===== src/Broker/Names.antt =====
-- How the names of the methods fit the tables of commands, for ASCII names.
use one_open_broker.Prelude.{
  ◌+◌, ◌-◌, ◌≡◌, Bool, true, not, ◌&&◌, ◌||◌, some, List, [], ◌∷◌, Str, str_eq_iff, if◌then◌else◌,
  arith, ltb, leb, ap, ◌∙◌, sym,
}
use one_open_broker.Security.Auth.{member}
use one_open_broker.Broker.Handle.{Command, find_method, methods, method_of}

unfoldable pub is_ascii : Str → Bool
is_ascii [] = true
is_ascii (c ∷ s) = ltb c 128 && is_ascii s

-- The upper case of an ASCII text.
unfoldable pub ascii_upper : Str → Str
ascii_upper [] = []
ascii_upper (c ∷ s) = (if leb 97 c && leb c 122 then c - 32 else c) ∷ ascii_upper s

unfoldable pub ascii_lower : Str → Str
ascii_lower [] = []
ascii_lower (c ∷ s) = (if leb 65 c && leb c 90 then c + 32 else c) ∷ ascii_lower s

-- Where both cases of a text are ASCII, the upper case is that of the lower case.
abbrev pub IsCasing : (Str → Str) → (Str → Str) → Type 0
IsCasing upper lower =
    (s : Str)
    → is_ascii (upper s) ≡ true
    → is_ascii (lower s) ≡ true
    → upper s ≡ ascii_upper (lower s)

unfoldable pub all_ascii : List Str → Bool
all_ascii [] = true
all_ascii (s ∷ ss) = is_ascii s && all_ascii ss

-- Each method whose name is in the table passes the test.
unfoldable pub covers : List Str → (Command → Bool) → List (Str × Command) → Bool
covers table test [] = true
covers table test ((name, c) ∷ ms) =
    is_ascii name && ((not (member (ascii_upper name) table) || test c) && covers table test ms)

member-is_ascii :
    (s : Str) (table : List Str)
    → all_ascii table ≡ true
    → member s table ≡ true
    → is_ascii s ≡ true
unfolding all_ascii member
member-is_ascii s [] a m = cc
member-is_ascii s (t ∷ table) a m =
    ground (arith, member-is_ascii s table, str_eq_iff t s, ap is_ascii)

find_method-is_ascii :
    (table : List Str) (test : Command → Bool) (ms : List (Str × Command)) (s : Str) (c : Command)
    → covers table test ms ≡ true
    → find_method s ms ≡ some c
    → is_ascii s ≡ true
unfolding covers find_method
find_method-is_ascii table test [] s c k f = cc
find_method-is_ascii table test ((name, d) ∷ ms) s c k f =
    ground (arith, find_method-is_ascii table test ms s c, str_eq_iff name s, ap is_ascii)

find_method-passes :
    (table : List Str) (test : Command → Bool) (ms : List (Str × Command)) (s : Str) (c : Command)
    → covers table test ms ≡ true
    → member (ascii_upper s) table ≡ true
    → find_method s ms ≡ some c
    → test c ≡ true
unfolding covers find_method
find_method-passes table test [] s c k m f = cc
find_method-passes table test ((name, d) ∷ ms) s c k m f = ground (
  arith,
  find_method-passes table test ms s c,
  str_eq_iff name s,
  ap (λ (x : Str). member (ascii_upper x) table),
)

-- A command whose upper case is in the table leads to a method that passes the test.
pub method_of-passes :
    (upper lower : Str → Str) (table : List Str) (test : Command → Bool) (cmd : Str) (c : Command)
    → IsCasing upper lower
    → all_ascii table ≡ true
    → covers table test methods ≡ true
    → member (upper cmd) table ≡ true
    → method_of (lower cmd) ≡ some c
    → test c ≡ true
unfolding method_of
method_of-passes upper lower table test cmd c cased ascii k m f =
    find_method-passes table test methods (lower cmd) c k
      (ap (λ (x : Str). member x table)
          (sym (
            cased cmd (member-is_ascii (upper cmd) table ascii m)
              (find_method-is_ascii table test methods (lower cmd) c k f)))
        ∙ m)
      f
