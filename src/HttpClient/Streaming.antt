-- ===== src/HttpClient/Streaming.antt =====
-- `DoStream` of internal/httpclient/client.go where the answer is a stream.
use crated.Prelude.{ok, pos, some, ◌≡◌, arith}
use crated.HttpClient.{Request, Response, Client}
use crated.HttpClient.Exchange.{World, do_stream}

abbrev pub streaming : Client → Client
streaming c = record c { stream_timeout = some (pos 0) }

pub do_stream_ok :
    {W : Type 0} (world : World W) (c : Client) (w v : W) (http : Request) (resp : Response)
    → world.transport w (pos 0) http ≡ (v, ok resp)
    → resp.status_code ≡ 200
    → do_stream world c w http ≡ (streaming c, v, ok resp)
unfolding do_stream
do_stream_ok world c w v http resp sent status = ground (arith, sent, status)
