-- ===== src/Proxy/Exchange/Stream.antt =====
-- handleStream of internal/proxy/stream.go: its loop, and what it leaves in the quota row.
use shimiaocheng_llm.Prelude.{
  ◌≡◌, refl, inl, inr, Bool, true, false, not, List, [], ◌∷◌, ◌++◌, Option, none, some, Text, text,
  ◌==◌, if◌then◌else◌, map, Bool-cases, Option-cases,
}
use shimiaocheng_llm.GoTime.{Time, Layout}
use shimiaocheng_llm.Quota.{Quota, find}
use shimiaocheng_llm.Quota.Gate.{OnlyRow}
use shimiaocheng_llm.Quota.Accounting.{refunded, accounted}
use shimiaocheng_llm.Proxy.Json.{Json, Usage}
use shimiaocheng_llm.Proxy.Exchange.{
  Db, Faults, Call, Upstream, no_usage, refund_call, billed_tokens, handle_stream, scan_lines,
  client_line, line_usage, line_data, status_digits,
}
use shimiaocheng_llm.Proxy.Exchange.Settle.{
  Executes, refund_call-OnlyRow, billed-OnlyRow, log_call-quotas,
}

-- The lines that arrive before the client leaves.
abbrev pub received : List (Text × Bool) → List Text
received [] = []
received ((line, gone) ∷ lines) = if gone then [] else line ∷ received lines

-- The usage that a line carries.
abbrev pub usage_in : Json → Text → Option Usage
usage_in j line = elim (line_data line) [
  | none ↦ none
  | some payload ↦ elim (j.chunk_usage_of payload) [ some (some v) ↦ some v | _ ↦ none ]
]

-- The last usage that a line of the list carries, or else the given one.
abbrev pub last_usage : Json → Usage → List Text → Usage
last_usage j u [] = u
last_usage j u (line ∷ lines) =
    last_usage j (elim (usage_in j line) [ none ↦ u | some v ↦ v ]) lines

line_usage-eq :
    (j : Json) (u : Usage) (line : Text)
    → line_usage j u line ≡ elim (usage_in j line) [ none ↦ u | some v ↦ v ]
unfolding line_usage
line_usage-eq j u line = elim (Option-cases (line_data line)) [
  | inl e ↦ rw (line_usage, e) refl
  | inr (t, e) ↦ rw (line_usage, e) (decoded (j.chunk_usage_of t))
]
  where
    decoded :
        (o : Option (Option Usage))
        → elim o as (λ x. Usage) [ some (some v) ↦ v | _ ↦ u ]
          ≡ elim (elim o as (λ x. Option Usage) [ some (some v) ↦ some v | _ ↦ none ])
              as (λ x. Usage) [ none ↦ u | some v ↦ v ]
    decoded none = refl
    decoded (some none) = refl
    decoded (some (some v)) = refl

-- The loop sends the client every line that arrives before it leaves, with the model renamed, and
-- ends with the usage of the last of them that carries one.
pub scan_lines-eq-received :
    (j : Json) (model : Text) (u : Usage) (lines : List (Text × Bool))
    → scan_lines j model u lines ≡ (
      map (client_line j model) (received lines),
      last_usage j u (map (client_line j model) (received lines)),
    )
unfolding scan_lines
scan_lines-eq-received j model u [] = refl
scan_lines-eq-received j model u ((line, true) ∷ lines) = refl
scan_lines-eq-received j model u ((line, false) ∷ lines) =
    rw
      (
        scan_lines-eq-received j model (line_usage j u (client_line j model line)) lines,
        line_usage-eq j u (client_line j model line),
      )
      refl

-- The row after a streamed call.
abbrev pub stream_row : Json → Layout → Time → Call → Upstream → Quota → Quota
stream_row j l now c up q = elim up.transport_error [
  | some _ ↦ q
  | none ↦
      if not (up.status == 200)
      then refunded (l.format now) c.effective_calls q
      else accounted
          (billed_tokens c
            (last_usage j no_usage (map (client_line j c.request_model) (received up.lines))))
          q
]

-- A streamed call, whose request can be built, of a user with a quota row and to a client that
-- can be flushed, where the refund and the billing are executed: a status other than 200 refunds
-- the effective calls; a stream is accounted with the billed Tokens of the last usage that
-- arrived before the client left; an error of the transport leaves the row as the gate charged
-- it. Rows of other users stay.
pub handle_stream-settles :
    (j : Json) (l : Layout) (f : Faults) (now : Time) (c : Call) (up : Upstream) (db : Db)
    (q : Quota)
    → Executes f
    → up.built ≡ true
    → up.flusher ≡ true
    → find c.user_id db.quotas ≡ some q
    → OnlyRow c.user_id
        (stream_row j l now c up q)
        db.quotas
        (handle_stream j l f now c up db).0.quotas
unfolding handle_stream
handle_stream-settles j l f now c up db q x b fl e = elim (Option-cases up.transport_error) [
  | inr (t, h) ↦ rw (b, h, log_call-quotas f c no_usage 502 t db) (e, λ v ne. refl)
  | inl h ↦ elim (Bool-cases (up.status == 200)) [
    | inl k ↦
        rw (b, h, k, fl, scan_lines-eq-received j c.request_model no_usage up.lines)
          (billed-OnlyRow f c
            (last_usage j no_usage (map (client_line j c.request_model) (received up.lines))) 200 []
            db q x e)
    | inr k ↦
        rw (b, h, k)
          (let msg = text "Upstream returned " ++ status_digits up.status in
            rw (log_call-quotas f c no_usage up.status msg (refund_call l f now c db))
              (refund_call-OnlyRow l f now c db q x e))
  ]
]
