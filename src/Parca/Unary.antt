-- ===== src/Parca/Unary.antt =====
-- `grpcWebUnary`: what it makes of a response that is made of frames.
use tilt_common.Base.{zero, suc, ◌≡◌, ◌≢◌, refl, false, none, List, Bytes, All, arith}
use tilt_common.Base.Int.{ℤ, pos, negsuc}
use tilt_common.Errors.{grpc_status, fault, ok, err}
use tilt_common.Grpc.{no_trailer, looks_like_html}
use tilt_common.Grpc.Frames.{
  Frame, Fits, encode_frames, messages, last_trailer, parse_grpc_web_response-encode_frames,
}
use tilt_common.Host.{Response, Host}
use tilt_common.Parca.{check_reply, read_response, read_grpc_web_response}

-- A response of status 200 whose body is these frames, read to its end and no HTML.
pub record IsReply (H : Host) (resp : Response) (fs : List Frame) : Type 0 where
  pub status : resp.status ≡ 200
  pub unbroken : resp.body.broken ≡ none
  pub framed : resp.body.content ≡ encode_frames fs
  pub fit : All Fits fs
  pub plain : looks_like_html H.unicode_lower resp.content_type (encode_frames fs) ≡ false

module _ (H : Host) (path : Bytes) where
  read_response-IsReply :
      (resp : Response) (fs : List Frame)
      → IsReply H resp fs
      → read_response H path resp ≡ ok (encode_frames fs)
  unfolding read_response
  read_response-IsReply resp fs h = rw (h.status, h.unbroken, h.framed, h.plain)

  check_reply-status :
      (payload message : Bytes) (status : ℤ)
      → ((status ≡ pos 0)
          → check_reply H path (record {
            payload = payload;
            trailer = record { status = status; message = message };
          })
            ≡ ok payload)
        × ((status ≢ pos 0)
            → check_reply H path (record {
              payload = payload;
              trailer = record { status = status; message = message };
            })
              ≡ err (fault (grpc_status status path message)))
  unfolding check_reply
  check_reply-status payload message (pos zero) = (λ e. refl, λ ne. absurd (ne refl))
  check_reply-status payload message (pos (suc n)) = (λ e. cc, λ ne. ground arith)
  check_reply-status payload message (negsuc n) = (λ e. cc, λ ne. refl)

  -- Where a response of status 200 is made of frames and is not taken for HTML, the call returns the
  -- payload of the message frames if the last trailer's status is 0 or there is no trailer; with any
  -- other status it fails, and the error holds that status and the trailer's message.
  pub read_grpc_web_response-IsReply :
      (resp : Response) (fs : List Frame)
      → IsReply H resp fs
      → (((last_trailer H.unicode_lower no_trailer fs).status ≡ pos 0)
          → read_grpc_web_response H path resp ≡ ok (messages fs))
        × (((last_trailer H.unicode_lower no_trailer fs).status ≢ pos 0)
            → read_grpc_web_response H path resp
              ≡ err (
                  fault (
                    grpc_status
                      (last_trailer H.unicode_lower no_trailer fs).status
                      path
                      (last_trailer H.unicode_lower no_trailer fs).message)))
  unfolding read_grpc_web_response
  read_grpc_web_response-IsReply resp fs h =
      let t = last_trailer H.unicode_lower no_trailer fs in
      let (accepted, refused) = check_reply-status (messages fs) t.message t.status in
      let parsed = parse_grpc_web_response-encode_frames H.unicode_lower fs h.fit in
      (
        λ e. rw (read_response-IsReply resp fs h, parsed) (accepted e),
        λ e. rw (read_response-IsReply resp fs h, parsed) (refused e),
      )
