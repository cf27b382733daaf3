-- ===== src/HttpServer/Middleware/Replies.antt =====
-- httpreply/common.go: the functions that handlers reply with. json.Marshal is done by the caller of the
-- model. Each returns its status and a nil error, beside the writer.
use goblocks.Prelude.Text.{Text}
use goblocks.Prelude.{ℕ, String, ◌≡◌, none, some, [], ◌++◌, arith}
use goblocks.HttpServer.Middleware.{Header, Writer, set_header, write_header, write, reply}
use goblocks.HttpServer.Middleware.Chain.{status}

abbrev replied : Writer → ℕ → String → Text → Writer × ℕ
replied w code content_type content = (reply w code content_type content, code)

-- OK, Created and NoContent
pub reply_ok : Writer → Writer × ℕ
reply_ok w = replied w 200 "" []

pub reply_created : Writer → Writer × ℕ
reply_created w = replied w 201 "" []

pub reply_no_content : Writer → Writer × ℕ
reply_no_content w = replied w 204 "" []

-- JSONCode and JSON
pub reply_json_code : Writer → Text → ℕ → Writer × ℕ
reply_json_code w str code = replied w code "application/json" str

pub reply_json : Writer → Text → Writer × ℕ
unfolding reply_json_code
reply_json w str = reply_json_code w str 200

-- ObjectCode, of what json.Marshal makes of the object
pub reply_object_code : Writer → Text → ℕ → Writer × ℕ
reply_object_code w buf code = replied w code "application/json" buf

-- String
pub reply_string : Writer → Text → Writer × ℕ
reply_string w str = replied w 200 "text/plain" str

-- what a response that had not been started has sent
abbrev pub Sends : Writer → Writer → ℕ → Text → Type 0
Sends w v code content = (status v ≡ some code) × (v.body ≡ w.body ++ content)

-- A reply to a response that has not been started sends its status, and the content is appended.
pub reply-Sends :
    (w : Writer) (code : ℕ) (content_type : String) (content : Text)
    → w.sent ≡ none
    → Sends w (reply w code content_type content) code content
unfolding reply set_header write_header write
reply-Sends w code content_type content fresh = ground (arith, fresh)

-- A reply to a response that was started keeps its status: the code that is returned is not the one
-- that was sent.
pub reply_again :
    (w : Writer) (code : ℕ) (content_type : String) (content : Text) (sent : ℕ × Header)
    → w.sent ≡ some sent
    → status (reply w code content_type content) ≡ some sent.0
unfolding reply set_header write_header write
reply_again w code content_type content sent started = ground (arith, started)
