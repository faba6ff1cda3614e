-- ===== src/Loadgen/Outcome.antt =====
-- scheduler/cmd/loadgen/main.go: when `sendOne` succeeds.
use edge_sched.Prelude.{
  ℕ, ◌≡◌, ◌≢◌, refl, ◌↔◌, ◌==◌, ==_iff, Bool-cases, inl, inr, none, some, Result, ok, err, panic,
  true_not_false,
}
use edge_sched.Prelude.Int.{ℤ}
use edge_sched.Prelude.Bytes.{Bytes}
use edge_sched.Prelude.Floats.{Floats}
use edge_sched.Loadgen.Send.{
  SendError, FileRead, unreadable, contents, Posted, no_reply, replied, PredictReply, Sent, no_resp,
  decoded, of_reply, send_one,
}

module _ (fl : Floats) where
  module _ (zero : fl.F) (decode : Bytes → Result Bytes (PredictReply fl)) where
    -- The file was read and the reply has code 200 and a body that decodes to `resp`.
    abbrev pub IsServed : FileRead → Posted → PredictReply fl → Type 0
    IsServed (unreadable e) posted resp = ⊥
    IsServed (contents data_read) (no_reply e) resp = ⊥
    IsServed (contents data_read) (replied code body) resp = (code ≡ 200) × (decode body ≡ ok resp)

    some_error : {e : SendError} → some e ≡ none → ⊥
    some_error h = cc

    not_ok :
        {e : Bytes} {a : PredictReply fl}
        → ◌≡◌ {A = Result Bytes (PredictReply fl)} (err e) (ok a)
        → ⊥
    not_ok h = cc

    -- A body of a reply with code 200, and what it decodes to.
    decoded_iff :
        (r : Sent fl) (d : Result Bytes (PredictReply fl))
        → r.error ≡ none
        → d ≢ panic
        → ((decoded fl zero decode r d).error ≡ none)
          ↔ ((resp : PredictReply fl) × (d ≡ ok resp) × ((decoded fl zero decode r d).resp ≡ resp))
    unfolding decoded
    decoded_iff r (ok resp) none_yet total = ((λ h. (resp, refl, refl)), (λ _. none_yet))
    decoded_iff r (err e) none_yet total =
        ((λ h. absurd (some_error h)), (λ (resp, h, _). absurd (not_ok h)))
    decoded_iff r panic none_yet total = absurd (total refl)

    of_reply_iff :
        (r : Sent fl) (code : ℕ) (body : Bytes)
        → r.error ≡ none
        → decode body ≢ panic
        → ((of_reply fl zero decode r code body).error ≡ none) ↔ (
            (resp : PredictReply fl) × ((code ≡ 200) × (decode body ≡ ok resp))
            × ((of_reply fl zero decode r code body).resp ≡ resp))
    unfolding of_reply
    of_reply_iff r code body none_yet total = elim (Bool-cases (code == 200)) [
      | inl good ↦
          let (f, g) = decoded_iff (record r { status_code = code }) (decode body) none_yet total in
          rw good (
            (λ h. let (resp, d, same) = f h in (resp, ((==_iff code 200).0 good, d), same)),
            (λ (resp, (_, d), same). g (resp, d, same)),
          )
      | inr bad ↦ rw bad (
        (λ h. absurd (some_error h)),
        (λ (resp, (e, _), _). absurd (true_not_false ((==_iff code 200).1 e) bad)),
      )
    ]

    -- The decoder does not panic. Then a result has no error exactly if the file was read and the
    -- reply has code 200 and a body that decodes, and it then has what the body decodes to.
    pub send_one-ok_iff :
        (path : Bytes) (file_read : FileRead) (posted : Posted) (wall_ms : fl.F) (at : ℤ)
        → ((body : Bytes) → decode body ≢ panic)
        → let r = send_one fl zero decode path file_read posted wall_ms at in
          (r.error ≡ none)
          ↔ ((resp : PredictReply fl) × IsServed file_read posted resp × (r.resp ≡ resp))
    unfolding send_one
    send_one-ok_iff path (unreadable e) posted wall_ms at total =
        ((λ h. absurd (cc)), (λ (resp, h, _). absurd h))
    send_one-ok_iff path (contents data_read) (no_reply e) wall_ms at total =
        ((λ h. absurd (cc)), (λ (resp, h, _). absurd h))
    send_one-ok_iff path (contents data_read) (replied code body) wall_ms at total =
        of_reply_iff
          (record {
            path = path;
            status_code = 0;
            error = none;
            wall_ms = wall_ms;
            timestamp_ms = at;
            resp = no_resp fl zero;
          })
          code body refl (total body)
