-- ===== src/Net/Completion.antt =====
-- The values of completion_router.hpp (include/aegisflow/net), and what a worker does with a request:
-- `BusinessTask` of completion_router.cpp (src/net).
use aegis_flow.Prelude.{
  ℕ, ◌%◌, ◌^◌, Bool, true, false, not, ◌&&◌, ◌||◌, Option, none, some, List, [], ◌∷◌, ◌++◌, Bytes,
  length, ltb, if◌then◌else◌,
}
use aegis_flow.Net.Protocol.{encode_payload_length}
use aegis_flow.Net.Token.{ConnectionToken, valid}
pub mod Reply

pub data FrameBusinessStatus : Type 0 where
  response invalid_request failed cancelled : FrameBusinessStatus

pub record FrameBusinessResult : Type 0 where
  pub status : FrameBusinessStatus
  pub response_payload : Bytes

pub record BusinessRequest : Type 0 where
  pub token : ConnectionToken
  pub request_payload : Bytes

pub data BusinessCompletionStatus : Type 0 where
  response invalid_request output_limit_exceeded failed cancelled : BusinessCompletionStatus

pub record BusinessCompletion : Type 0 where
  pub token : ConnectionToken
  pub status : BusinessCompletionStatus
  pub response_frame : Bytes

abbrev pub is_empty : Bytes → Bool
is_empty [] = true
is_empty (b ∷ bs) = false

-- A response has a frame, and nothing else has one.
abbrev pub response_shape_valid : BusinessCompletionStatus → Bytes → Bool
response_shape_valid BusinessCompletionStatus.response frame = not (is_empty frame)
response_shape_valid BusinessCompletionStatus.invalid_request frame = is_empty frame
response_shape_valid BusinessCompletionStatus.output_limit_exceeded frame = is_empty frame
response_shape_valid BusinessCompletionStatus.failed frame = is_empty frame
response_shape_valid BusinessCompletionStatus.cancelled frame = is_empty frame

unfoldable pub valid_completion : BusinessCompletion → Bool
unfolding valid
valid_completion c = valid c.token && response_shape_valid c.status c.response_frame

abbrev pub completion_status_for : FrameBusinessStatus → BusinessCompletionStatus
completion_status_for FrameBusinessStatus.response = BusinessCompletionStatus.response
completion_status_for FrameBusinessStatus.invalid_request = BusinessCompletionStatus.invalid_request
completion_status_for FrameBusinessStatus.cancelled = BusinessCompletionStatus.cancelled
completion_status_for FrameBusinessStatus.failed = BusinessCompletionStatus.failed

-- The completion of a response: its frame is the header and the payload. The header holds the length
-- as 32 bits.
unfoldable pub response_completion : ConnectionToken → Bytes → ℕ → BusinessCompletion
unfolding encode_payload_length
response_completion token payload max_payload =
    if is_empty payload || ltb max_payload (length payload)
    then record {
      token = token;
      status =
          if is_empty payload
          then BusinessCompletionStatus.failed
          else BusinessCompletionStatus.output_limit_exceeded;
      response_frame = [];
    }
    else record {
      token = token;
      status = BusinessCompletionStatus.response;
      response_frame = encode_payload_length (length payload % 2 ^ 32) ++ payload;
    }

abbrev pub completion_of : ConnectionToken → ℕ → FrameBusinessStatus → Bytes → BusinessCompletion
completion_of token max_payload FrameBusinessStatus.response payload =
    response_completion token payload max_payload
completion_of token max_payload FrameBusinessStatus.invalid_request payload = record {
  token = token;
  status = completion_status_for FrameBusinessStatus.invalid_request;
  response_frame = [];
}
completion_of token max_payload FrameBusinessStatus.failed payload = record {
  token = token;
  status = completion_status_for FrameBusinessStatus.failed;
  response_frame = [];
}
completion_of token max_payload FrameBusinessStatus.cancelled payload = record {
  token = token;
  status = completion_status_for FrameBusinessStatus.cancelled;
  response_frame = [];
}

-- What the handler gives; `none` is an exception.
abbrev pub after_handle : ConnectionToken → ℕ → Option FrameBusinessResult → BusinessCompletion
after_handle token max_payload none = record {
  token = token;
  status = BusinessCompletionStatus.failed;
  response_frame = [];
}
after_handle token max_payload (some result) =
    completion_of token max_payload result.status result.response_payload

-- `run` up to the routing of the completion. The handler gets the payload and what the stop token
-- says.
unfoldable pub run_task :
    (Bytes → Bool → Option FrameBusinessResult) → ℕ → BusinessRequest → Bool → BusinessCompletion
unfolding response_completion
run_task handle max_payload request stop_requested =
    after_handle request.token max_payload (handle request.request_payload stop_requested)
