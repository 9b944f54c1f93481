-- ===== src/Statsd.antt =====
-- src/hypercorn/statsd.py: the metrics that go to statsd. A value is the text that an f-string makes
-- of it.
use nonecorn.Prelude.{
  ℕ, ap, ◌∙◌, append_assoc, ◌≡◌, ◌∷◌, ◌++◌, ◌==◌, ◌&&◌, some, none, not, if◌then◌else◌, is_empty,
  all, ltb, arith, [], List, Option, Bool, true, false,
}
use nonecorn.Bytes.{Bytes, Text, codes, same, partition}
use nonecorn.Exec.{Result, ok, raise, unicode_error}

pub record Statsd : Type 0 where
  pub prefix : Text
  pub dogstatsd_tags : Text

abbrev pub ends_with_dot : Text → Bool
ends_with_dot [] = false
ends_with_dot (c ∷ []) = c == b'.'
ends_with_dot (c ∷ d ∷ s) = ends_with_dot (d ∷ s)

-- the methods that log a message
pub data Level : Type 0 where
  critical error warning info debug exception : Level

-- `__init__`
unfoldable pub init : Text → Text → Statsd
init prefix dogstatsd_tags = record {
  prefix =
      if not (is_empty prefix) && not (ends_with_dot prefix) then prefix ++ codes "." else prefix;
  dogstatsd_tags = dogstatsd_tags;
}

-- `_send`: the bytes for the socket
unfoldable pub send : Statsd → Text → Result Bytes
send s message =
    let tagged =
      if not (is_empty s.dogstatsd_tags)
      then message ++ codes "|#" ++ s.dogstatsd_tags
      else message in
    if all (λ c. ltb c 128) tagged then ok tagged else raise unicode_error

module _ (s : Statsd) where
  -- the messages of `gauge`, `increment`, `decrement` and `histogram`
  abbrev pub gauge : Text → Text → Text
  gauge name value = s.prefix ++ name ++ codes ":" ++ value ++ codes "|g"

  abbrev pub increment : Text → Text → Text → Text
  increment name value sampling_rate =
      s.prefix ++ name ++ codes ":" ++ value ++ codes "|c|@" ++ sampling_rate

  abbrev pub decrement : Text → Text → Text → Text
  decrement name value sampling_rate =
      s.prefix ++ name ++ codes ":-" ++ value ++ codes "|c|@" ++ sampling_rate

  abbrev pub histogram : Text → Text → Text
  histogram name value = s.prefix ++ name ++ codes ":" ++ value ++ codes "|ms"

  abbrev count_of : Text → List Text
  count_of level = increment (codes "hypercorn.log." ++ level) (codes "1") (codes "1.0") ∷ []

  -- the branch of `log` for the metric of `extra`, whose three values are there and not empty
  unfoldable pub log_metric : Text → Text → Text → Option Text
  log_metric metric value type =
      if same type (codes "gauge")
      then some (gauge metric value)
      else if same type (codes "counter")
      then some (increment metric value (codes "1.0"))
      else if same type (codes "histogram")
      then some (histogram metric value)
      else none

  -- the metrics of `critical`, `error`, `warning`, `info`, `debug` and `exception`
  abbrev pub level_metrics : Level → List Text
  level_metrics Level.critical = count_of (codes "critical")
  level_metrics Level.error = count_of (codes "error")
  level_metrics Level.warning = count_of (codes "warning")
  level_metrics Level.info = []
  level_metrics Level.debug = []
  level_metrics Level.exception = count_of (codes "exception")

  -- the metrics of `access`, for the time in milliseconds and the status, if there is a response
  unfoldable pub access : Text → Option Text → List Text
  access milliseconds status =
      histogram (codes "hypercorn.request.duration") milliseconds
      ∷ increment (codes "hypercorn.requests") (codes "1") (codes "1.0")
      ∷ elim status [
        | none ↦ []
        | some code ↦
            increment (codes "hypercorn.request.status." ++ code) (codes "1") (codes "1.0") ∷ []
      ]

partition-append :
    (sep : ℕ) (before after : Text)
    → all (λ c. not (c == sep)) before ≡ true
    → partition sep (before ++ (sep ∷ after)) ≡ (before, after)
unfolding partition
partition-append sep [] after h = ground arith
partition-append sep (c ∷ before) after h = ground (arith, partition-append sep before after)

-- A gauge is read back as statsd reads it: the name is what stands before the first colon, the value
-- what stands then before the first bar, and the rest is its type, where neither the prefix nor the
-- name has a colon and the value has no bar.
pub partition-gauge :
    (s : Statsd) (name value : Text)
    → all (λ c. not (c == b':')) (s.prefix ++ name) ≡ true
    → all (λ c. not (c == b'|')) value ≡ true
    → let (key, rest) = partition b':' (gauge s name value) in
      (key ≡ s.prefix ++ name) × (partition b'|' rest ≡ (value, codes "g"))
partition-gauge s name value n v =
    let key = s.prefix ++ name in
    let whole : gauge s name value ≡ key ++ codes ":" ++ (value ++ codes "|g") =
      append_assoc (key ++ codes ":") value (codes "|g") in
    let parts : partition b':' (gauge s name value) ≡ (key, value ++ codes "|g") =
      ap (partition b':') (whole ∙ append_assoc key (codes ":") (value ++ codes "|g"))
      ∙ partition-append b':' key (value ++ codes "|g") n in
    (
      ap (λ (p : Text × Text). p.0) parts,
      ap (λ (p : Text × Text). partition b'|' p.1) parts
          ∙ partition-append b'|' value (codes "g") v,
    )
