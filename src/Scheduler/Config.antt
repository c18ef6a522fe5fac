-- ===== src/Scheduler/Config.antt =====
-- The connection URL: `JobStoreConfig` of crates/activable-scheduler/src/store.rs. The base of the
-- backoff is a floating-point constant, given here by its whole value.
use activable_cloud.Prelude.{
  ℕ, ◌+◌, ◌-◌, ◌*◌, ◌≡◌, refl, false, [], ◌∷◌, ◌++◌, Option, none, some, arith, Text, codes,
  is_empty, length, drop, all, starts_with, contains_char, ltb, ◌==◌, if◌then◌else◌,
}
use activable_cloud.Prelude.Errors.{Result, ok, err, ◌>>=◌, ok_or}
use activable_cloud.Prelude.Decimal.{is_digit}
use activable_cloud.Scheduler.Model.{SchedulerError, database}

pub record JobStoreConfig : Type 0 where
  pub host : Text
  pub port : ℕ
  pub user : Text
  pub password : Text
  pub dbname : Text
  pub pool_size : ℕ
  pub backoff_base_seconds : ℕ

-- `split_once(c)`: the parts before and behind the first place of the character.
unfoldable pub split_once : ℕ → Text → Option (Text × Text)
split_once c [] = none
split_once c (d ∷ s) =
    if d == c
    then some ([], s)
    else elim (split_once c s) [ none ↦ none | some (a, b) ↦ some (d ∷ a, b) ]

-- `parse::<u16>`: digits, behind a plus sign or not, of a number that fits.
abbrev pub digits_value : ℕ → Text → ℕ
digits_value acc [] = acc
digits_value acc (c ∷ s) = digits_value (acc * 10 + (c - b'0')) s

abbrev pub parse_digits : Text → Option ℕ
parse_digits s =
    if is_empty s
    then none
    else if all is_digit s
    then (if ltb (digits_value 0 s) 65536 then some (digits_value 0 s) else none)
    else none

abbrev pub parse_u16 : Text → Option ℕ
parse_u16 [] = none
parse_u16 (c ∷ s) = if c == b'+' then parse_digits s else parse_digits (c ∷ s)

abbrev pub strip_prefix : Text → Text → Option Text
strip_prefix p s = if starts_with s p then some (drop (length p) s) else none

-- The scheme is taken off.
abbrev pub without_scheme : Text → Result SchedulerError Text
without_scheme url = elim (strip_prefix (codes "postgres://") url) [
  | some s ↦ ok s
  | none ↦ elim (strip_prefix (codes "postgresql://") url) [
    | some s ↦ ok s
    | none ↦ err (database (codes "URL must start with postgres:// or postgresql://"))
  ]
]

-- The host and the port, which is 5432 where none is given.
abbrev pub host_and_port : Text → Option (Text × Text) → Text × Text
host_and_port host_port none = (host_port, codes "5432")
host_and_port host_port (some pair) = pair

-- From the text behind the scheme on.
unfoldable pub from_parts : Text → Result SchedulerError JobStoreConfig
from_parts url_str = do
  (auth, rest) ← ok_or (split_once b'@' url_str) (database (codes "URL must contain @"))
  (user, password) ← ok_or (split_once b':' auth) (database (codes "auth section must contain :"))
  (host_port, dbname) ← ok_or (split_once b'/' rest) (database (codes "URL must contain /"))
  let (host, port_str) = host_and_port host_port (split_once b':' host_port)
  port ← ok_or (parse_u16 port_str) (database (codes "invalid port: " ++ port_str))
  ok (record {
    host = host;
    port = port;
    user = user;
    password = password;
    dbname = dbname;
    pool_size = 16;
    backoff_base_seconds = 2;
  })

unfoldable pub from_url : Text → Result SchedulerError JobStoreConfig
unfolding from_parts
from_url url = do url_str ← without_scheme url; from_parts url_str

split_once-append :
    (c : ℕ) (pre s : Text)
    → contains_char c pre ≡ false
    → split_once c (pre ++ c ∷ s) ≡ some (pre, s)
unfolding split_once
split_once-append c [] s h = ground arith
split_once-append c (d ∷ pre) s h = ground (arith, split_once-append c pre s)

-- A URL of user, password, host, port and database is read as these, where no separator stands in a part in front of it, and the port is the text of a number that fits.
pub from_url-parts :
    (user password host port_str dbname : Text) (port : ℕ)
    → contains_char b'@' (user ++ b':' ∷ password) ≡ false
    → contains_char b':' user ≡ false
    → contains_char b'/' (host ++ b':' ∷ port_str) ≡ false
    → contains_char b':' host ≡ false
    → parse_u16 port_str ≡ some port
    → from_url (
        codes "postgres://"
        ++ ((user ++ b':' ∷ password) ++ b'@' ∷ ((host ++ b':' ∷ port_str) ++ b'/' ∷ dbname)))
      ≡ ok (record {
        host = host;
        port = port;
        user = user;
        password = password;
        dbname = dbname;
        pool_size = 16;
        backoff_base_seconds = 2;
      })
unfolding from_url
from_url-parts user password host port_str dbname port auth_free user_free host_free name_free
      fits =
    rw
      (
        split_once-append b'@' (user ++ b':' ∷ password)
            ((host ++ b':' ∷ port_str) ++ b'/' ∷ dbname) auth_free,
        split_once-append b':' user password user_free,
        split_once-append b'/' (host ++ b':' ∷ port_str) dbname host_free,
        split_once-append b':' host port_str name_free,
        fits,
      )
      refl
