-- ===== src/Net/Completion/Reply.antt =====
-- What `BusinessTask` of completion_router.cpp (src/net) sends to the connection.
use aegis_flow.Prelude.{
  ℕ, ◌+◌, ◌%◌, ◌^◌, ◌≤◌, ◌<◌, ◌≡◌, ◌⊎◌, refl, sym, ap, ◌∙◌, Bool, true, Option, none, some, [], ◌∷◌,
  arith, Bytes, length, length-append, ltb, Bool-cases, append-nil, inl, inr,
}
use aegis_flow.Net.Protocol.{encode_payload_length, max_payload_size}
use aegis_flow.Net.Codec.{consume, fresh_codec}
use aegis_flow.Net.Codec.Framing.{encode_frame, consume-encode_frames}
use aegis_flow.Net.Token.{ConnectionToken, valid}
use aegis_flow.Net.Completion.{
  FrameBusinessStatus, FrameBusinessResult, BusinessRequest, BusinessCompletionStatus,
  BusinessCompletion, response_shape_valid, valid_completion, completion_of, after_handle,
  response_completion, run_task,
}

-- A completion for the connection that can be posted.
record Fit (token : ConnectionToken) (max_payload : ℕ) (c : BusinessCompletion) : Type 0 where
  named : c.token ≡ token
  postable : valid_completion c ≡ true
  size : length c.response_frame ≤ 4 + max_payload

without_frame :
    (token : ConnectionToken) (max_payload : ℕ) (status : BusinessCompletionStatus)
    → valid token ≡ true
    → response_shape_valid status [] ≡ true
    → Fit token max_payload (record { token = token; status = status; response_frame = [] })
unfolding valid_completion
without_frame token max_payload status good shape = record {
  named = refl;
  postable = rw (good, shape) refl;
  size = omega arith;
}

header_length : (n : ℕ) → length (encode_payload_length n) ≡ 4
unfolding encode_payload_length
header_length n = refl

response_completion-Fit :
    (token : ConnectionToken) (payload : Bytes) (max_payload : ℕ)
    → valid token ≡ true
    → Fit token max_payload (response_completion token payload max_payload)
unfolding response_completion valid_completion
response_completion-Fit token [] max_payload good =
    without_frame token max_payload BusinessCompletionStatus.failed good refl
response_completion-Fit token (b ∷ bs) max_payload good =
    elim (Bool-cases (ltb max_payload (length (b ∷ bs)))) [
      | inl e ↦
          rw e (
            without_frame token max_payload BusinessCompletionStatus.output_limit_exceeded good
              refl)
      | inr e ↦ rw e (record {
        named = refl;
        postable = rw good refl;
        size = ground (
          arith,
          length-append (encode_payload_length (length (b ∷ bs) % 2 ^ 32)) (b ∷ bs),
          header_length (length (b ∷ bs) % 2 ^ 32),
        );
      })
    ]

after_handle-Fit :
    (token : ConnectionToken) (max_payload : ℕ) (o : Option FrameBusinessResult)
    → valid token ≡ true
    → Fit token max_payload (after_handle token max_payload o)
after_handle-Fit token max_payload none good =
    without_frame token max_payload BusinessCompletionStatus.failed good refl
after_handle-Fit token max_payload (some result) good = go result.status
  where
    go :
        (status : FrameBusinessStatus)
        → Fit token max_payload (completion_of token max_payload status result.response_payload)
    go FrameBusinessStatus.response =
        response_completion-Fit token result.response_payload max_payload good
    go FrameBusinessStatus.invalid_request =
        without_frame token max_payload BusinessCompletionStatus.invalid_request good refl
    go FrameBusinessStatus.failed =
        without_frame token max_payload BusinessCompletionStatus.failed good refl
    go FrameBusinessStatus.cancelled =
        without_frame token max_payload BusinessCompletionStatus.cancelled good refl

-- The completion holds the payload as the peer's codec reads it.
abbrev pub Reads : Bytes → BusinessCompletion → Type 0
Reads payload c =
    (c.status ≡ BusinessCompletionStatus.response)
    × ((consume fresh_codec c.response_frame).1.frames ≡ payload ∷ [])

-- The completion has a status alone.
abbrev pub Tells : BusinessCompletionStatus → BusinessCompletion → Type 0
Tells status c = (c.status ≡ status) × (c.response_frame ≡ [])

-- What a result of the handler is to become. A response that is empty or too long is not sent.
abbrev pub Answers : FrameBusinessStatus → Bytes → ℕ → BusinessCompletion → Type 0
Answers FrameBusinessStatus.response payload max_payload c =
    ((1 ≤ length payload) × (length payload ≤ max_payload) × Reads payload c)
    ⊎ ((payload ≡ []) × Tells BusinessCompletionStatus.failed c)
    ⊎ ((max_payload < length payload) × Tells BusinessCompletionStatus.output_limit_exceeded c)
Answers FrameBusinessStatus.invalid_request payload max_payload c =
    Tells BusinessCompletionStatus.invalid_request c
Answers FrameBusinessStatus.failed payload max_payload c = Tells BusinessCompletionStatus.failed c
Answers FrameBusinessStatus.cancelled payload max_payload c =
    Tells BusinessCompletionStatus.cancelled c

-- An exception of the handler is a failure.
abbrev pub AnswersTo : Option FrameBusinessResult → ℕ → BusinessCompletion → Type 0
AnswersTo none max_payload c = Tells BusinessCompletionStatus.failed c
AnswersTo (some result) max_payload c = Answers result.status result.response_payload max_payload c

response_completion-Answers :
    (token : ConnectionToken) (payload : Bytes) (max_payload : ℕ)
    → max_payload ≤ max_payload_size
    → Answers FrameBusinessStatus.response payload max_payload
        (response_completion token payload max_payload)
unfolding response_completion
response_completion-Answers token [] max_payload small = inr (inl (refl, (refl, refl)))
response_completion-Answers token (b ∷ bs) max_payload small =
    let n = length (b ∷ bs) in
    elim (Bool-cases (ltb max_payload n)) [
      | inl e ↦ rw e (inr (inr (ground arith, (refl, refl))))
      | inr e ↦
          let short : n ≤ max_payload = ground arith in
          let fits : n % 2 ^ 32 ≡ n = omega arith in
          rw (e, fits)
            (inl (
              omega arith,
              short,
              (
                refl,
                ap (λ bytes. (consume fresh_codec bytes).1.frames)
                      (sym (append-nil (encode_frame (b ∷ bs))))
                    ∙ (consume-encode_frames ((b ∷ bs) ∷ []) (omega arith, omega arith, tt)).0,
              ),
            ))
    ]

after_handle-AnswersTo :
    (token : ConnectionToken) (max_payload : ℕ) (o : Option FrameBusinessResult)
    → max_payload ≤ max_payload_size
    → AnswersTo o max_payload (after_handle token max_payload o)
after_handle-AnswersTo token max_payload none small = (refl, refl)
after_handle-AnswersTo token max_payload (some result) small = go result.status
  where
    go :
        (status : FrameBusinessStatus)
        → Answers status result.response_payload max_payload
            (completion_of token max_payload status result.response_payload)
    go FrameBusinessStatus.response =
        response_completion-Answers token result.response_payload max_payload small
    go FrameBusinessStatus.invalid_request = (refl, refl)
    go FrameBusinessStatus.failed = (refl, refl)
    go FrameBusinessStatus.cancelled = (refl, refl)

-- The completion of a request is for its connection and can be posted, and it answers what the
-- handler gives.
pub record Replies (handle : Bytes → Bool → Option FrameBusinessResult) (max_payload : ℕ)
    (request : BusinessRequest) (stop : Bool) (c : BusinessCompletion) : Type 0 where
  pub token : c.token ≡ request.token
  pub postable : valid_completion c ≡ true
  pub size : length c.response_frame ≤ 4 + max_payload
  pub answers : AnswersTo (handle request.request_payload stop) max_payload c

-- For a valid token and a payload limit within the protocol's, what a worker makes of a request is
-- for the request's connection and can be posted. It carries a frame exactly if the handler gives a
-- response of 1 to `max_payload` bytes, and a codec reads just this response from it; any other
-- result, and an exception, becomes the status that stands for it, without a frame.
pub run_task-Replies :
    (handle : Bytes → Bool → Option FrameBusinessResult) (max_payload : ℕ)
    (request : BusinessRequest) (stop : Bool)
    → valid request.token ≡ true
    → max_payload ≤ max_payload_size
    → Replies handle max_payload request stop (run_task handle max_payload request stop)
unfolding run_task
run_task-Replies handle max_payload request stop good small =
    let fit =
      after_handle-Fit request.token max_payload (handle request.request_payload stop) good in
    record {
      token = fit.named;
      postable = fit.postable;
      size = fit.size;
      answers =
          after_handle-AnswersTo request.token max_payload (handle request.request_payload stop)
            small;
    }
