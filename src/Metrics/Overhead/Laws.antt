-- ===== src/Metrics/Overhead/Laws.antt =====
-- What the estimate of a probe's bytes adds up to.
use autonat_project.Base.{
  ℕ, ◌+◌, ◌≡◌, refl, some, Bool, true, false, ap, List, [], ◌∷◌, arith, if◌then◌else◌,
}
use autonat_project.Base.Int.{ℤ, pos, ◌+ℤ◌, int_laws}
use autonat_project.Base.Dict.{lookup}
use autonat_project.Json.{Json, str, default, Python}
use autonat_project.Trace.Parse.{Activity}
use autonat_project.Trace.Attrs.{Attrs, Event}
use autonat_project.Metrics.Events.{says_public}
use autonat_project.Metrics.Overhead.{
  Estimate, has_event, addrs_of, addr_bytes, response_bytes, dial_back_bytes, estimate_of,
  probe_byte_estimate,
}

-- A "dial_back" message was received, or, without events, the probe's result is "public".
abbrev pub dialed_back : Attrs → List Event → Bool
dialed_back attrs [] = says_public attrs
dialed_back attrs (e ∷ es) = has_event "dial_back_received" (e ∷ es)

-- The bytes of the messages other than the dial data: the two that each probe has, with the
-- addresses, the request for dial data, and the dial-back.
abbrev pub message_bytes : ℕ → Activity → ℕ
message_bytes bytes p =
    24
    + bytes
    + (if has_event "dial_data_requested" p.events then 16 else 0)
    + (if dialed_back p.attrs p.events then 12 else 0)

pub record IsEstimate (bytes : ℕ) (p : Activity) (e : Estimate) : Type 0 where
  pub split : e.total ≡ e.protocol_only +ℤ e.amplification
  pub protocol : e.protocol_only ≡ pos (message_bytes bytes p)

dial_back_bytes_lem :
    (attrs : Attrs) (es : List Event)
    → dial_back_bytes attrs es ≡ pos (if dialed_back attrs es then 12 else 0)
unfolding dial_back_bytes
dial_back_bytes_lem attrs [] = ground arith
dial_back_bytes_lem attrs (e ∷ es) = ground arith

pos_if : (b : Bool) → (if b then pos 16 else pos 0) ≡ pos (if b then 16 else 0)
pos_if true = refl
pos_if false = refl

module _ (bytes request back : ℕ) (response : ℤ) where
  estimate_of_lem :
      let e = estimate_of (pos (12 + bytes)) (pos request) response (pos back) in
      (e.total ≡ e.protocol_only +ℤ e.amplification)
      × (e.protocol_only ≡ pos (24 + bytes + request + back))
  unfolding estimate_of
  estimate_of_lem = (omega int_laws, omega int_laws)

pub probe_byte_estimate_lem :
    (py : Python) (p : Activity) {addrs : List Json}
    → addrs_of py (default (str "[]") (lookup "autonat.addrs" p.attrs)) ≡ some addrs
    → (e : Estimate) × (probe_byte_estimate py p ≡ some e)
      × IsEstimate (addr_bytes py addrs) p e
      × (e.amplification ≡ response_bytes py p.events)
unfolding probe_byte_estimate estimate_of
probe_byte_estimate_lem py p {addrs} h =
    let bytes = addr_bytes py addrs in
    let request : ℕ = if has_event "dial_data_requested" p.events then 16 else 0 in
    let back : ℕ = if dialed_back p.attrs p.events then 12 else 0 in
    let (split, protocol) = estimate_of_lem bytes request back (response_bytes py p.events) in
    (
      estimate_of (pos (12 + bytes)) (pos request) (response_bytes py p.events) (pos back),
      rw (h, dial_back_bytes_lem p.attrs p.events)
          (ap (λ r. some (estimate_of (pos (12 + bytes)) r (response_bytes py p.events) (pos back)))
            (pos_if (has_event "dial_data_requested" p.events))),
      record { split = split; protocol = protocol },
      refl,
    )
