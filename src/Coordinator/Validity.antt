-- ===== src/Coordinator/Validity.antt =====
-- The arguments that are accepted give a configuration in range.
use mcpd.Base.{
  ℕ, ◌^◌, ◌≤◌, ◌<◌, ◌≡◌, refl, subst, sym, arith, Bool, true, false, ◌||◌, ◌==◌, if◌then◌else◌,
  List, [], ◌∷◌, ◌++◌, All, Option, none, some,
}
use mcpd.Base.Text.{codes, same_text}
use mcpd.Wire.{other_error, Bytes, Result, ok, err, and_then, Error}
use mcpd.Tcp.{TransportCompression, no_compression, snappy}
use mcpd.Coordinator.Arguments.{
  Config, default_config, parse_long, parse_int, parse_non_negative_int,
  parse_transport_compression, ValueOption, option, text_value, port_value, value_options,
  find_option, named, set_flag, parse_loop, final_checks, parse_args,
}
use mcpd.Coordinator.Ranges.{
  IsInRange, NeedsSnappy, IsConfig, and_then-ok, guard-ok, ok_injective, parse_long-range,
  parse_int-range, parse_non_negative_int-range, parse_port-range,
}

-- An option keeps a configuration in range, whatever its names are.
abbrev KeepsRange : ValueOption → Type 0
KeepsRange o =
    (name value : Bytes) (c c' : Config) → IsInRange c → o.set name value c ≡ ok c' → IsInRange c'

option-KeepsRange :
    {A : Type 0} (Good : A → Type 0) (names : List Bytes) (parse : Bytes → Bytes → Result A)
    (store : Config → A → Config)
    → ((value name : Bytes) (a : A) → parse value name ≡ ok a → Good a)
    → ((c : Config) (a : A) → Good a → IsInRange c → IsInRange (store c a))
    → KeepsRange (option names parse store)
option-KeepsRange Good names parse store good keeps name value c c' h e =
    let (a, p, q) = and_then-ok (parse value name) (λ a. ok (store c a)) c' e in
    subst IsInRange (ok_injective (store c a) c' q) (keeps c a (good value name a p) h)

abbrev AllKeep : List ValueOption → Type 0
AllKeep options = All KeepsRange options

text_option :
    (names : List Bytes) (store : Config → Bytes → Config)
    → ((c : Config) (t : Bytes) → IsInRange c → IsInRange (store c t))
    → KeepsRange (option names text_value store)
text_option names store keeps =
    option-KeepsRange (λ t. Unit) names text_value store (λ value name t h. tt) (λ c t g. keeps c t)

module _ (names : List Bytes) (store : Config → ℕ → Config) where
  int_option :
      ((c : Config) (n : ℕ) → (1 ≤ n) × (n < 2 ^ 31) → IsInRange c → IsInRange (store c n))
      → KeepsRange (option names parse_int store)
  int_option = option-KeepsRange _ names parse_int store parse_int-range

  long_option :
      ((c : Config) (n : ℕ) → (1 ≤ n) × (n < 2 ^ 63) → IsInRange c → IsInRange (store c n))
      → KeepsRange (option names parse_long store)
  long_option = option-KeepsRange _ names parse_long store parse_long-range

  port_option :
      ((c : Config) (n : ℕ) → n < 2 ^ 16 → IsInRange c → IsInRange (store c n))
      → KeepsRange (option names port_value store)
  port_option = option-KeepsRange _ names port_value store parse_port-range

non_negative_option :
    (names : List Bytes) (store : Config → ℕ → Config)
    → ((c : Config) (n : ℕ) → n < 2 ^ 31 → IsInRange c → IsInRange (store c n))
    → KeepsRange (option names parse_non_negative_int store)
non_negative_option names store =
    option-KeepsRange _ names parse_non_negative_int store parse_non_negative_int-range

mode_option :
    (names : List Bytes) (store : Config → TransportCompression → Config)
    → ((c : Config) (m : TransportCompression) → IsInRange c → IsInRange (store c m))
    → KeepsRange (option names (λ value name. parse_transport_compression value) store)
mode_option names store keeps =
    option-KeepsRange (λ m. Unit) names _ store (λ value name m h. tt) (λ c m g. keeps c m)

value_options-keep : AllKeep value_options
unfolding value_options
value_options-keep = (
  port_option [] _ (λ c n g h. omega (arith, g, h)),
  (
    text_option [] _ (λ c t h. h),
    (
      int_option [] _ (λ c n g h. omega (arith, g, h)),
      (
        int_option [] _ (λ c n g h. omega (arith, g, h)),
        (
          int_option [] _ (λ c n g h. omega (arith, g, h)),
          (
            int_option [] _ (λ c n g h. omega (arith, g, h)),
            (
              long_option [] _ (λ c n g h. omega (arith, g, h)),
              (
                long_option [] _ (λ c n g h. omega (arith, g, h)),
                (
                  long_option [] _ (λ c n g h. omega (arith, g, h)),
                  (
                    non_negative_option [] _ (λ c n g h. omega (arith, g, h)),
                    (
                      text_option [] _ (λ c t h. h),
                      (
                        port_option [] _ (λ c n g h. omega (arith, g, h)),
                        (
                          text_option [] _ (λ c t h. h),
                          (
                            text_option [] _ (λ c t h. h),
                            (
                              port_option [] _ (λ c n g h. omega (arith, g, h)),
                              (
                                text_option [] _ (λ c t h. h),
                                (
                                  text_option [] _ (λ c t h. h),
                                  (
                                    text_option [] _ (λ c t h. h),
                                    (mode_option [] _ (λ c t h. h), tt),
                                  ),
                                ),
                              ),
                            ),
                          ),
                        ),
                      ),
                    ),
                  ),
                ),
              ),
            ),
          ),
        ),
      ),
    ),
  ),
)

some_injective : {A : Type 0} (a b : A) → some a ≡ some b → a ≡ b
some_injective a b h = cc h

-- What is found among options that keep the range keeps it.
found-keeps :
    (b : Bool) (o o' : ValueOption) (rest : Option ValueOption)
    → KeepsRange o
    → (rest ≡ some o' → KeepsRange o')
    → (if b then some o else rest) ≡ some o'
    → KeepsRange o'
found-keeps true o o' rest h k e = subst KeepsRange (some_injective o o' e) h
found-keeps false o o' rest h k e = k e

find_option-keeps :
    (arg : Bytes) (options : List ValueOption) (o : ValueOption)
    → AllKeep options
    → find_option arg options ≡ some o
    → KeepsRange o
find_option-keeps arg [] o h e = absurd (cc e)
find_option-keeps arg (o' ∷ options) o h e =
    found-keeps (named arg o'.names) o' o (find_option arg options) h.0
      (find_option-keeps arg options o h.1) e

set_flag-keeps : (arg : Bytes) (c c' : Config) → IsInRange c → set_flag arg c ≡ ok c' → IsInRange c'
set_flag-keeps arg c c' h e =
    either
      (same_text arg (codes "--saturate-capacity-overflow")
        || same_text arg (codes "--truncate-capacity-overflow"))
      (same_text arg (codes "--directed")) e
  where
    either :
        (b d : Bool)
        → (if b
            then ok (record c { saturate_capacity_overflow = true })
            else if d
            then ok (record c { directed = true })
            else err (other_error (codes "unknown argument: " ++ arg)))
          ≡ ok c'
        → IsInRange c'
    either true d e = subst IsInRange (ok_injective _ c' e) h
    either false true e = subst IsInRange (ok_injective _ c' e) h
    either false false e = absurd (cc e)

parse_loop-IsInRange :
    (args : List Bytes) (c c' : Config) → IsInRange c → parse_loop args c ≡ ok c' → IsInRange c'
unfolding parse_loop
parse_loop-IsInRange [] c c' h e = subst IsInRange (ok_injective c c' e) h
parse_loop-IsInRange (arg ∷ []) c c' h e = alone (find_option arg value_options) e
  where
    alone :
        (r : Option ValueOption)
        → elim r [
          | none ↦ set_flag arg c
          | some o ↦ err (other_error (arg ++ codes " requires a value"))
        ]
          ≡ ok c'
        → IsInRange c'
    alone none e = set_flag-keeps arg c c' h e
    alone (some o) e = absurd (cc e)
parse_loop-IsInRange (arg ∷ (value ∷ args)) c c' h e =
    followed (λ d. parse_loop-IsInRange (value ∷ args) d c') (λ d. parse_loop-IsInRange args d c')
      (find_option arg value_options) refl e
  where
    followed :
        ((d : Config) → IsInRange d → parse_loop (value ∷ args) d ≡ ok c' → IsInRange c')
        → ((d : Config) → IsInRange d → parse_loop args d ≡ ok c' → IsInRange c')
        → (r : Option ValueOption) → find_option arg value_options ≡ r
        → elim r [
          | none ↦ and_then (set_flag arg c) (parse_loop (value ∷ args))
          | some o ↦ and_then (o.set arg value c) (parse_loop args)
        ]
          ≡ ok c'
        → IsInRange c'
    followed keep skip none f e =
        let (d, g, k) = and_then-ok (set_flag arg c) (parse_loop (value ∷ args)) c' e in
        keep d (set_flag-keeps arg c d h g) k
    followed keep skip (some o) f e =
        let (d, g, k) = and_then-ok (o.set arg value c) (parse_loop args) c' e in
        skip d (find_option-keeps arg value_options o value_options-keep f arg value c d h g) k

chosen-ok :
    (b : Bool) (c c' : Config) (e : Error)
    → (if b then ok c else err e) ≡ ok c'
    → (b ≡ true) × (c ≡ c')
chosen-ok true c c' e h = (refl, ok_injective c c' h)
chosen-ok false c c' e h = absurd (cc h)

final_checks-ok :
    (available : Bool) (c c' : Config)
    → IsInRange c
    → final_checks available c ≡ ok c'
    → IsConfig available c'
final_checks-ok available c c' h e =
    let (b, f) = guard-ok (c.port == 0) _ _ c' e in mode c.rpc_compression refl f b
  where
    mode :
        (m : TransportCompression)
        → c.rpc_compression ≡ m
        → elim m [
          | no_compression ↦ ok c
          | snappy ↦
              if available
              then ok c
              else err (
                  other_error (
                    codes
                      "--rpc-compression snappy requested but this binary was built without Snappy support"))
        ]
          ≡ ok c'
        → (c.port == 0) ≡ false
        → IsConfig available c'
    mode no_compression g f b = subst (IsConfig available) (ok_injective c c' f) (record {
      in_range = h;
      listens = ground (arith, b);
      compresses = subst (λ m. NeedsSnappy m available) (sym g) tt;
    })
    mode snappy g f b =
        let (k, q) = chosen-ok available c c' _ f in
        subst (IsConfig available) q (record {
          in_range = h;
          listens = ground (arith, b);
          compresses = subst (λ m. NeedsSnappy m available) (sym g) k;
        })

-- If parseArgs returns a configuration, whatever the arguments are, then its port is between 1 and 65535, the other
-- ports are below 65536, the numbers of workers, partitions, iterations and levels are positive ints, the schedule start,
-- the objective scale and the timeout are positive longs, the progress interval is an int from 0 on, and the
-- compressed transport is only chosen where snappy is built in.
pub parse_args-IsConfig :
    (available : Bool) (args : List Bytes) (c : Config)
    → parse_args available args ≡ ok c
    → IsConfig available c
unfolding parse_args
parse_args-IsConfig available [] c e = absurd (cc e)
parse_args-IsConfig available (path ∷ args) c e =
    let (d, f, g) =
      and_then-ok (parse_loop args (default_config path)) (final_checks available) c e in
    final_checks-ok available d c
      (parse_loop-IsInRange args (default_config path) d (omega arith) f) g
