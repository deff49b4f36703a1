-- ===== src/Upload/Mobile/Tests.antt =====
-- Uploads of mobile/src/lib/recording-upload.ts to small servers.
use csg_learning_platform.Prelude.{
  true, false, some, none, [], ◌∷◌, ◌≡◌, refl, All, ltb, if◌then◌else◌,
}
use csg_learning_platform.Prelude.Text.{Text, txt}
use csg_learning_platform.Upload.Mobile.{
  ok, err, Options, StorageResponse, Remote, put_part, upload_part_with_retry, send_parts,
}
use csg_learning_platform.Upload.Mobile.Order.{CompletesInOrder, send_parts-CompletesInOrder}

abbrev stored : StorageResponse
stored = record { is_ok = true; status = 200; etag = some (txt "tag"); body = ok [] }

abbrev busy : StorageResponse
busy = record { is_ok = false; status = 503; etag = none; body = ok (txt "<Code>SlowDown</Code>") }

-- Storage is busy at the first two attempts for each part, and the server refuses the recording.
abbrev server : Remote
server = record {
  initiate = ok (txt "key");
  part_url = λ part attempt. ok (txt "url");
  put = λ url part attempt. if ltb attempt 3 then ok busy else ok stored;
  complete = λ key parts. ok tt;
  abort = λ key. ok tt;
  presign = ok (txt "key");
  post = λ key. ok stored;
  create_recording = λ input. err (txt "Title is taken.");
  abandon = λ key. ok tt;
}

abbrev long_video : Options
long_video = record {
  asset = record {
    uri = txt "file";
    name = txt "a.mp4";
    size = 200000000;
    mime_type = txt "video/mp4";
  };
  title = txt " Talk ";
  description = none;
  recorded_date = none;
}

third_try :
    upload_part_with_retry server 1
    ≡ (ok (txt "tag"), put_part 1 1 ∷ put_part 1 2 ∷ put_part 1 3 ∷ [])
unfolding upload_part_with_retry
third_try = refl

send_parts-CompletesInOrder_example :
    All (CompletesInOrder 200000000) (send_parts server (txt "key") 200000000).1
send_parts-CompletesInOrder_example = send_parts-CompletesInOrder server (txt "key") 200000000
