-- ===== src/Overlay/Traces.antt =====
-- StartTrace, StartSpan and EndSpan. The ids (made of the clock and a random number) and the clock in
-- microseconds are arguments.
pub mod Spans
use sochdb_go.Prelude.{ℕ, zero, suc, ◌+◌, ◌-◌, ◌%◌, ◌^◌, List, [], ◌∷◌, ◌++◌, Option, none, some}
use sochdb_go.Prelude.Int.{ℤ, to_u64, of_u64}
use sochdb_go.Prelude.Result.{Result, ok, err}
use sochdb_go.Prelude.Bytes.{Bytes, codes}
use sochdb_go.Overlay.{Kv}

pub record TraceInfo : Type 0 where
  pub trace_id : Bytes
  pub root_span_id : Bytes

pub record SpanData : Type 0 where
  pub span_id : Bytes
  pub name : Bytes
  pub start_us : ℤ
  pub parent_span_id : Bytes
  pub status : Bytes
  pub end_us : ℤ
  pub duration_us : ℤ

-- encoding/json. The errors of Marshal are dropped, and the value is nil then.
pub record SpanJson : Type 0 where
  pub marshal_trace : Bytes → Bytes → ℤ → Bytes → Bytes
  pub marshal_span : SpanData → Bytes
  pub unmarshal_span : Bytes → Option SpanData

pub data TraceError (E : Type 0) : Type 0 where
  request_failed : E → TraceError E
  span_not_found : Bytes → TraceError E
  unmarshal_failed : TraceError E

-- "_traces/<trace>"
unfoldable pub trace_key : Bytes → Bytes
trace_key trace_id = codes "_traces/" ++ trace_id

-- "_traces/<trace>/spans/<span>"
unfoldable pub span_key : Bytes → Bytes → Bytes
span_key trace_id span_id = codes "_traces/" ++ (trace_id ++ (codes "/spans/" ++ span_id))

unfoldable pub active_span : Bytes → Bytes → Bytes → ℤ → SpanData
active_span span_id parent_span_id name now_us = record {
  span_id = span_id;
  name = name;
  start_us = now_us;
  parent_span_id = parent_span_id;
  status = codes "active";
  end_us = ℤ.pos 0;
  duration_us = ℤ.pos 0;
}

-- `now - start` of int64 values.
unfoldable pub sub_i64 : ℤ → ℤ → ℤ
sub_i64 a b = of_u64 ((to_u64 a + 2 ^ 64 - to_u64 b) % 2 ^ 64)

unfoldable pub ended_span : Bytes → ℤ → SpanData → SpanData
ended_span status now_us span = record span {
  status = status;
  end_us = now_us;
  duration_us = sub_i64 now_us span.start_us;
}

-- The value, or the error, of a Put.
abbrev pub after_put : {S E A : Type 0} → Result E (Unit {0}) × S → A → Result (TraceError E) A × S
after_put (err e, s) a = (err (request_failed e), s)
after_put (ok _, s) a = (ok a, s)

module _ {S E : Type 0} (kv : Kv S E) (json : SpanJson) where
  unfoldable pub start_span :
      Bytes → ℤ → Bytes → Bytes → Bytes → S → Result (TraceError E) Bytes × S
  start_span span_id now_us trace_id parent_span_id name s =
      after_put
        (kv.kv_put (span_key trace_id span_id)
          (json.marshal_span (active_span span_id parent_span_id name now_us)) s)
        span_id

  -- The root span, if the Put of the trace returned no error.
  unfoldable pub start_root :
      Bytes → Bytes → ℤ → Bytes → Result E (Unit {0}) × S → Result (TraceError E) TraceInfo × S
  start_root trace_id span_id now_us name (err e, s) = (err (request_failed e), s)
  start_root trace_id span_id now_us name (ok _, s) =
      after_put
        (kv.kv_put (span_key trace_id span_id)
          (json.marshal_span (active_span span_id [] name now_us)) s)
        (record { trace_id = trace_id; root_span_id = span_id })

  unfoldable pub start_trace : Bytes → Bytes → ℤ → Bytes → S → Result (TraceError E) TraceInfo × S
  start_trace trace_id span_id now_us name s =
      start_root trace_id span_id now_us name
        (kv.kv_put (trace_key trace_id) (json.marshal_trace trace_id name now_us span_id) s)

  -- What is done with the stored bytes of the span.
  unfoldable pub end_stored :
      ℤ → Bytes → Bytes → Bytes → Option SpanData → S → Result (TraceError E) ℤ × S
  end_stored now_us trace_id span_id status none s = (err unmarshal_failed, s)
  end_stored now_us trace_id span_id status (some span) s =
      after_put
        (kv.kv_put (span_key trace_id span_id) (json.marshal_span (ended_span status now_us span))
          s)
        (sub_i64 now_us span.start_us)

  -- An error of Get and a missing span are reported alike.
  unfoldable pub end_answer :
      ℤ → Bytes → Bytes → Bytes → Result E (Option Bytes) → S → Result (TraceError E) ℤ × S
  end_answer now_us trace_id span_id status (err e) s = (err (span_not_found span_id), s)
  end_answer now_us trace_id span_id status (ok none) s = (err (span_not_found span_id), s)
  end_answer now_us trace_id span_id status (ok (some span_data)) s =
      end_stored now_us trace_id span_id status (json.unmarshal_span span_data) s

  unfoldable pub end_span : ℤ → Bytes → Bytes → Bytes → S → Result (TraceError E) ℤ × S
  end_span now_us trace_id span_id status s =
      let (r, s') = kv.kv_get (span_key trace_id span_id) s in
      end_answer now_us trace_id span_id status r s'
