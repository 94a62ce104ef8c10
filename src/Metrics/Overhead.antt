-- ===== src/Metrics/Overhead.antt =====
-- `_probe_byte_estimate` of testbed/analyze.py: the bytes of one probe's messages.
pub mod Laws
pub mod Total
use Prim.Native.String.{len, count}
use autonat_project.Base.{
  ℕ, ◌+◌, String, Bool, true, false, Option, none, some, List, [], ◌∷◌, any, if◌then◌else◌, ◌>>=◌,
}
use autonat_project.Base.Int.{ℤ, pos, negsuc, ◌+ℤ◌, ◌-ℤ◌}
use autonat_project.Base.Dict.{lookup}
use autonat_project.Json.{
  Json, null, str, list, elements, default, is_text, Python, coerce_int, iterate,
}
use autonat_project.Trace.Attrs.{Attrs, Event}
use autonat_project.Trace.Parse.{Activity}
use autonat_project.Metrics.Events.{named_event, says_public}

pub record Estimate : Type 0 where
  pub dial_request : ℤ
  pub dial_data_request : ℤ
  pub dial_data_response : ℤ
  pub dial_response : ℤ
  pub dial_back : ℤ
  pub total : ℤ
  pub amplification : ℤ
  pub protocol_only : ℤ

abbrev pub twelve : ℤ
twelve = pos 12

-- `"…" in event_names`
abbrev pub has_event : String → List Event → Bool
has_event n es = any (named_event n) es

-- The first event of the name, at which the loop breaks off.
unfoldable pub first_named : String → List Event → Option Event
first_named n [] = none
first_named n (e ∷ es) = if named_event n e then some e else first_named n es

abbrev pub int_or_zero : Option ℤ → ℤ
int_or_zero none = pos 0
int_or_zero (some n) = n

-- The value of `dial_back`.
unfoldable pub dial_back_bytes : Attrs → List Event → ℤ
dial_back_bytes attrs [] = if says_public attrs then twelve else pos 0
dial_back_bytes attrs (e ∷ es) = if has_event "dial_back_received" (e ∷ es) then twelve else pos 0

-- The dict that is returned, from its parts.
unfoldable pub estimate_of : ℤ → ℤ → ℤ → ℤ → Estimate
estimate_of dial_request dial_data_request dial_data_response dial_back =
    let total = dial_request +ℤ dial_data_request +ℤ dial_data_response +ℤ twelve +ℤ dial_back in
    record {
      dial_request = dial_request;
      dial_data_request = dial_data_request;
      dial_data_response = dial_data_response;
      dial_response = twelve;
      dial_back = dial_back;
      total = total;
      amplification = dial_data_response;
      protocol_only = total -ℤ dial_data_response;
    }

module _ (py : Python) where
  -- What the sum runs over, for the value of "autonat.addrs". `none` is the TypeError for a text
  -- that decodes to a number, a boolean or null.
  unfoldable pub addrs_of : Json → Option (List Json)
  addrs_of (str s) = elim (py.loads s) [ some v ↦ iterate v | none ↦ some [] ]
  addrs_of (list vs) = some (elements vs)
  addrs_of _ = some []

  addr_len : Json → ℕ
  addr_len (str s) = len s
  addr_len v = count (py.to_str v)

  unfoldable pub addr_bytes : List Json → ℕ
  unfolding addr_len
  addr_bytes [] = 0
  addr_bytes (a ∷ addrs) = addr_len a + addr_bytes addrs

  num_bytes : Option Event → ℤ
  num_bytes none = pos 0
  num_bytes (some e) = int_or_zero (coerce_int py (default null (lookup "num_bytes" e.attrs)))

  -- The value of `dial_data_response`.
  unfoldable pub response_bytes : List Event → ℤ
  unfolding num_bytes first_named
  response_bytes es = num_bytes (first_named "dial_data_requested" es)

  unfoldable pub probe_byte_estimate : Activity → Option Estimate
  unfolding estimate_of addrs_of addr_bytes response_bytes dial_back_bytes
  probe_byte_estimate probe = do
    addrs ← addrs_of (default (str "[]") (lookup "autonat.addrs" probe.attrs))
    some (
        estimate_of (pos (12 + addr_bytes addrs))
          (if has_event "dial_data_requested" probe.events then pos 16 else pos 0)
          (response_bytes probe.events) (dial_back_bytes probe.attrs probe.events))
