-- ===== src/Overlay/Traces/Spans.antt =====
-- What StartTrace and EndSpan leave in the store.
use sochdb_go.Prelude.{◌≡◌, refl, sym, ap, ◌∙◌, Option, none, some, if◌then◌else◌, Bool, []}
use sochdb_go.Prelude.Int.{ℤ}
use sochdb_go.Prelude.Result.{Result, ok, err}
use sochdb_go.Prelude.Bytes.{Bytes}
use sochdb_go.Prelude.Bytes.Order.{bytes_eq, bytes_eq_self}
use sochdb_go.Overlay.{Kv}
use sochdb_go.Overlay.Laws.{LawfulKv}
use sochdb_go.Overlay.Traces.{
  SpanData, SpanJson, TraceInfo, trace_key, span_key, active_span, sub_i64, ended_span, after_put,
  start_span, start_root, start_trace, end_stored, end_answer, end_span,
}

after_put-ok :
    {S E A : Type 0} (p : Result E (Unit {0}) × S) (a b : A)
    → (after_put p a).0 ≡ ok b
    → (p.0 ≡ ok tt) × (a ≡ b)
after_put-ok (err e, s) a b h = absurd (cc)
after_put-ok (ok _, s) a b h = (refl, cc)

after_put-state : {S E A : Type 0} (p : Result E (Unit {0}) × S) (a : A) → (after_put p a).1 ≡ p.1
after_put-state (err e, s) a = refl
after_put-state (ok _, s) a = refl

module _ {S E : Type 0} (kv : Kv S E) (json : SpanJson) (view : S → Bytes → Option Bytes)
    (law : LawfulKv kv view) where
  -- The span that was stored, and the store behind the call, in which it is ended.
  abbrev pub Ended : ℤ → Bytes → Bytes → Bytes → S → ℤ → S → Type 0
  Ended now_us trace_id span_id status s duration s' =
      (stored : Bytes) × (span : SpanData) × (view s (span_key trace_id span_id) ≡ some stored)
      × (json.unmarshal_span stored ≡ some span)
      × (duration ≡ sub_i64 now_us span.start_us)
      × ((j : Bytes)
          → view s' j ≡ (
              if bytes_eq (span_key trace_id span_id) j
              then some (
                  json.marshal_span
                    (record span { status = status; end_us = now_us; duration_us = duration }))
              else view s j))

  end_stored_lem :
      (now_us : ℤ) (trace_id span_id status : Bytes) (s s1 : S) (stored : Bytes)
      (found : Option SpanData) (duration : ℤ)
      → kv.kv_get (span_key trace_id span_id) s ≡ (ok (some stored), s1)
      → json.unmarshal_span stored ≡ found
      → (end_stored kv json now_us trace_id span_id status found s1).0 ≡ ok duration
      → Ended now_us trace_id span_id status s duration
          (end_stored kv json now_us trace_id span_id status found s1).1
  unfolding end_stored ended_span
  end_stored_lem now_us trace_id span_id status s s1 stored none duration got read h = absurd (cc)
  end_stored_lem now_us trace_id span_id status s s1 stored (some span) duration got read h =
      let key : Bytes = span_key trace_id span_id in
      let value : Bytes = json.marshal_span (ended_span status now_us span) in
      let p = kv.kv_put key value s1 in
      let (done, same) = after_put-ok p (sub_i64 now_us span.start_us) duration h in
      let there : view s key ≡ some stored = law.get-there key stored s (ap (λ r. r.0) got) in
      (
        stored,
        span,
        there,
        read,
        sym same,
        λ j.
            ap (λ t. view t j) (after_put-state p (sub_i64 now_us span.start_us))
            ∙ law.put-writes key value j s1 done
            ∙ ap (λ v. if bytes_eq key j then some value else v)
                (ap (λ t. view t j) (sym (ap (λ r. r.1) got)) ∙ law.get-keeps key j s)
            ∙ ap
                (λ (d : ℤ).
                  if bytes_eq key j
                  then some (
                      json.marshal_span
                        (record span { status = status; end_us = now_us; duration_us = d }))
                  else view s j)
                same,
      )

  end_answer_lem :
      (now_us : ℤ) (trace_id span_id status : Bytes) (s : S) (r : Result E (Option Bytes)) (s1 : S)
      (duration : ℤ)
      → kv.kv_get (span_key trace_id span_id) s ≡ (r, s1)
      → (end_answer kv json now_us trace_id span_id status r s1).0 ≡ ok duration
      → Ended now_us trace_id span_id status s duration
          (end_answer kv json now_us trace_id span_id status r s1).1
  unfolding end_answer
  end_answer_lem now_us trace_id span_id status s (err e) s1 duration got h = absurd (cc)
  end_answer_lem now_us trace_id span_id status s (ok none) s1 duration got h = absurd (cc)
  end_answer_lem now_us trace_id span_id status s (ok (some stored)) s1 duration got h =
      end_stored_lem now_us trace_id span_id status s s1 stored (json.unmarshal_span stored)
        duration got refl h

  -- If EndSpan returns a duration, the span was stored; the duration is the time now less the
  -- span's start (as int64), the span is stored with the status, the end and the duration and is
  -- otherwise as it was, and no other key changes.
  pub end_span_ends :
      (now_us : ℤ) (trace_id span_id status : Bytes) (s : S) (duration : ℤ)
      → (end_span kv json now_us trace_id span_id status s).0 ≡ ok duration
      → Ended now_us trace_id span_id status s duration
          (end_span kv json now_us trace_id span_id status s).1
  unfolding end_span
  end_span_ends now_us trace_id span_id status s duration h =
      end_answer_lem now_us trace_id span_id status s _ _ duration refl h

  -- Where StartSpan succeeded, and the stored span is read back by encoding/json, EndSpan on the
  -- store behind it, if it returns a duration, returns the time between the two calls.
  pub span_duration :
      (start_us now_us : ℤ) (trace_id span_id parent name status : Bytes) (s : S) (duration : ℤ)
      → (start_span kv json span_id start_us trace_id parent name s).0 ≡ ok span_id
      → json.unmarshal_span (json.marshal_span (active_span span_id parent name start_us))
        ≡ some (active_span span_id parent name start_us)
      → (end_span kv json now_us trace_id span_id status
          (start_span kv json span_id start_us trace_id parent name s).1).0
        ≡ ok duration
      → duration ≡ sub_i64 now_us start_us
  unfolding start_span active_span
  span_duration start_us now_us trace_id span_id parent name status s duration started read h =
      let key : Bytes = span_key trace_id span_id in
      let value : Bytes = json.marshal_span (active_span span_id parent name start_us) in
      let p = kv.kv_put key value s in
      let (stored, span, there, found, same, _) =
        end_span_ends now_us trace_id span_id status
          (start_span kv json span_id start_us trace_id parent name s).1 duration h in
      let written : view (start_span kv json span_id start_us trace_id parent name s).1 key
          ≡ some value =
        ap (λ t. view t key) (after_put-state p span_id)
        ∙ law.put-writes key value key s (after_put-ok p span_id span_id started).0
        ∙ ap (λ (b : Bool). if b then some value else view s key) (bytes_eq_self key) in
      let same_value : stored ≡ value = cc in
      let same_span : span ≡ active_span span_id parent name start_us =
        cc (found, read, ap json.unmarshal_span same_value) in
      same ∙ ap (λ (d : SpanData). sub_i64 now_us d.start_us) same_span

  start_root_lem :
      (trace_id span_id : Bytes) (now_us : ℤ) (name : Bytes) (s : S) (info : TraceInfo)
      (p : Result E (Unit {0}) × S)
      → kv.kv_put (trace_key trace_id) (json.marshal_trace trace_id name now_us span_id) s ≡ p
      → (start_root kv json trace_id span_id now_us name p).0 ≡ ok info
      → (info ≡ record { trace_id = trace_id; root_span_id = span_id })
        × ((j : Bytes)
            → view (start_root kv json trace_id span_id now_us name p).1 j ≡ (
                if bytes_eq (span_key trace_id span_id) j
                then some (json.marshal_span (active_span span_id [] name now_us))
                else if bytes_eq (trace_key trace_id) j
                then some (json.marshal_trace trace_id name now_us span_id)
                else view s j))
  unfolding start_root
  start_root_lem trace_id span_id now_us name s info (err e, s1) put_trace h = absurd (cc)
  start_root_lem trace_id span_id now_us name s info (ok _, s1) put_trace h =
      let value : Bytes = json.marshal_span (active_span span_id [] name now_us) in
      let trace_value : Bytes = json.marshal_trace trace_id name now_us span_id in
      let p = kv.kv_put (span_key trace_id span_id) value s1 in
      let root : TraceInfo = record { trace_id = trace_id; root_span_id = span_id } in
      let (done, same) = after_put-ok p root info h in
      (
        sym same,
        λ j.
            ap (λ t. view t j) (after_put-state p root)
            ∙ law.put-writes (span_key trace_id span_id) value j s1 done
            ∙ ap (λ v. if bytes_eq (span_key trace_id span_id) j then some value else v)
                (ap (λ t. view t j) (sym (ap (λ r. r.1) put_trace))
                  ∙ law.put-writes (trace_key trace_id) trace_value j s (ap (λ r. r.0) put_trace)),
      )

  -- If StartTrace succeeds, the trace and its active root span are stored under their keys, and no
  -- other key changes.
  pub start_trace_stores :
      (trace_id span_id : Bytes) (now_us : ℤ) (name : Bytes) (s : S) (info : TraceInfo)
      → (start_trace kv json trace_id span_id now_us name s).0 ≡ ok info
      → (info ≡ record { trace_id = trace_id; root_span_id = span_id })
        × ((j : Bytes)
            → view (start_trace kv json trace_id span_id now_us name s).1 j ≡ (
                if bytes_eq (span_key trace_id span_id) j
                then some (json.marshal_span (active_span span_id [] name now_us))
                else if bytes_eq (trace_key trace_id) j
                then some (json.marshal_trace trace_id name now_us span_id)
                else view s j))
  unfolding start_trace
  start_trace_stores trace_id span_id now_us name s info h =
      start_root_lem trace_id span_id now_us name s info
        (kv.kv_put (trace_key trace_id) (json.marshal_trace trace_id name now_us span_id) s) refl h
