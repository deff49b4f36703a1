-- ===== src/Attachments/Tests.antt =====
-- Runs of mobile/src/lib/attachments.ts.
use csg_learning_platform.Prelude.{true, ◌&&◌, some, ◌≡◌, refl, ltb, leb}
use csg_learning_platform.Prelude.Text.{Text, txt}
use csg_learning_platform.Attachments.{
  max_attachment_size, LocalAttachmentAsset, lower_trimmed, is_allowed, validate_attachment,
}
use csg_learning_platform.Attachments.Laws.{is_accepted, IsUsable, validate_attachment_correct}

abbrev photo : LocalAttachmentAsset
photo = record {
  uri = txt "file:///a";
  name = some (txt " ");
  size = some 2000;
  mime_type = some (txt "image/png");
}

abbrev same : Text → Text
same s = s

photo_test : is_accepted (validate_attachment same photo) ≡ true
unfolding validate_attachment
photo_test = refl

validate_attachment_correct_example :
    (is_accepted (validate_attachment same photo) ≡ (
      is_allowed (lower_trimmed same (some (txt "image/png")))
      && (ltb 0 2000 && leb 2000 max_attachment_size)))
    × IsUsable (validate_attachment same photo)
validate_attachment_correct_example = validate_attachment_correct same photo
