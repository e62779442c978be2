-- ===== src/Uploads/Recovery.antt =====
-- The recovery metadata of a finalization: `_validated_finalizing_info` of app/services/videos.py.
-- A text of JSON stands for the object that it parses to; a path is in the normal form of pathlib.
mod Tests
use asset_harbor.Base.{
  ℕ, ◌+◌, ◌≤◌, ◌≡◌, refl, String, Bool, true, false, not, ◌&&◌, ◌||◌, Option, none, some, List, [],
  ◌∷◌, ◌++◌, arith, Result, ok, err, value_error, ◌>>=◌, ◌>>◌, >>=-eq-ok, raise_if-eq-ok,
  ok-injective, or_raise-eq-ok, sym, raise_if, or_raise, leb, ◌==◌, if◌then◌else◌, str_eq, length,
  take, drop, All, ap,
}
use asset_harbor.Base.Text.{Text, codes, text_eq, text_eq_iff, is_digit}
use asset_harbor.Model.{ResumeInfo}
use asset_harbor.Chunks.{is_sha256}
use asset_harbor.Sniff.{video_extension}

-- What recovery goes by: the destination, relative to the data directory, and whether a global
-- administrator authorized the upload.
pub record FinalInfo : Type 0 where
  pub code : Text
  pub content_type : String
  pub sha256 : Text
  pub destination : Text
  pub global_admin : Bool

unfoldable pub is_base62 : ℕ → Bool
is_base62 c = is_digit c || (leb b'a' c && leb c b'z') || (leb b'A' c && leb c b'Z')

unfoldable pub all_base62 : Text → Bool
unfolding is_base62
all_base62 [] = true
all_base62 (c ∷ s) = is_base62 c && all_base62 s

-- `Path("files") / code[:2] / code[2:4] / f"{code}.{extension}"`
pub expected_relative : Text → String → Text
expected_relative code extension =
    codes "files/"
    ++ (take 2 code
        ++ (b'/' ∷ (take 2 (drop 2 code) ++ (b'/' ∷ (code ++ (b'.' ∷ codes extension))))))

-- A string of a JSON object: by its code points where the code walks it, else as a whole.
pub data Json : Type 0 where
  text : Text → Json
  word : String → Json

abbrev pub value_at : String → List (String × Json) → Option Json
value_at key [] = none
value_at key ((k, v) ∷ fields) = if str_eq k key then some v else value_at key fields

abbrev pub text_of : Option Json → Option Text
text_of (some (Json.text t)) = some t
text_of _ = none

abbrev pub word_of : Option Json → Option String
word_of (some (Json.word w)) = some w
word_of _ = none

-- The scope may be missing, but not of another kind.
abbrev pub scope_word : Option Json → Option (Option String)
scope_word none = some none
scope_word (some (Json.word w)) = some (some w)
scope_word (some (Json.text t)) = none

abbrev pub resume_of :
    Option Text → Option Text → Option String → Option Text → Option (Option String) → ResumeInfo
resume_of (some code) (some stored_path) (some content_type) (some sha256) (some scope) =
    ResumeInfo.final code stored_path content_type sha256 scope
resume_of _ _ _ _ _ = ResumeInfo.corrupt

-- What is read from a parsed object, by the keys of the fields.
abbrev pub resume_info_of : List (String × Json) → ResumeInfo
resume_info_of info =
    resume_of (text_of (value_at "code" info)) (text_of (value_at "stored_path" info))
      (word_of (value_at "content_type" info)) (text_of (value_at "sha256" info))
      (scope_word (value_at "auth_scope" info))

-- The scope that the metadata records, `tenant` where there is none.
unfoldable pub scope_of : Option String → Result Bool
scope_of none = ok false
scope_of (some scope) =
    if str_eq scope "tenant"
    then ok false
    else if str_eq scope "global_admin"
    then ok true
    else err value_error

-- `_validated_finalizing_info`, for short codes of a length, and where `inside` tells of a path
-- whether it resolves to one in the directory of files.
unfoldable pub validated_finalizing_info : ℕ → (Text → Bool) → ResumeInfo → Result FinalInfo
unfolding all_base62 expected_relative scope_of
validated_finalizing_info code_length inside ResumeInfo.empty = err value_error
validated_finalizing_info code_length inside ResumeInfo.corrupt = err value_error
validated_finalizing_info code_length inside (ResumeInfo.nonce n) = err value_error
validated_finalizing_info code_length inside
      (ResumeInfo.final code stored_path content_type sha256 scope) =
    do
      global_admin ← scope_of scope
      raise_if (not (length code == code_length && all_base62 code)) value_error
      raise_if (not (is_sha256 sha256)) value_error
      extension ← or_raise (video_extension content_type) value_error
      raise_if (not (text_eq stored_path (expected_relative code extension))) value_error
      raise_if (not (inside (expected_relative code extension))) value_error
      ok (record {
        code = code;
        content_type = content_type;
        sha256 = sha256;
        destination = expected_relative code extension;
        global_admin = global_admin;
      })

-- No character of a code is a separator or a dot.
abbrev pub IsFlat : Text → Type 0
IsFlat s = All (λ c. (c == b'/' ≡ false) × (c == b'.' ≡ false) × (c == b'\\' ≡ false)) s

base62-IsFlat : (s : Text) → all_base62 s ≡ true → IsFlat s
unfolding all_base62 is_base62
base62-IsFlat [] h = tt
base62-IsFlat (c ∷ s) h =
    ((ground arith, ground arith, ground arith), base62-IsFlat s (ground arith))

-- Accepted metadata names the one file that its code and its type determine: the path that is
-- derived, which is the one that the metadata states, is built from a code of the fixed length with
-- no separator and no dot and from the extension of the type, and lies in the directory of files.
pub validated_finalizing_info-destination :
    (code_length : ℕ) (inside : Text → Bool) (code stored_path : Text) (content_type : String)
    (sha256 : Text) (scope : Option String) (info : FinalInfo)
    → validated_finalizing_info code_length inside
        (ResumeInfo.final code stored_path content_type sha256 scope)
      ≡ ok info
    → (extension : String) × (video_extension content_type ≡ some extension)
      × (info.destination ≡ expected_relative code extension)
      × (stored_path ≡ expected_relative code extension)
      × (length code ≡ code_length)
      × IsFlat code
      × (inside info.destination ≡ true)
unfolding validated_finalizing_info
validated_finalizing_info-destination n inside code stored_path content_type sha256 scope info e =
    let (admin, scoped, e1) = >>=-eq-ok (scope_of scope) _ e in
    let (_, coded, e2) =
      >>=-eq-ok (raise_if (not (length code == n && all_base62 code)) value_error) _ e1 in
    let (_, hex, e3) = >>=-eq-ok (raise_if (not (is_sha256 sha256)) value_error) _ e2 in
    let (extension, known, e4) =
      >>=-eq-ok (or_raise (video_extension content_type) value_error) _ e3 in
    let (_, stated, e5) =
      >>=-eq-ok
        (raise_if (not (text_eq stored_path (expected_relative code extension))) value_error) _
        e4 in
    let (_, resolved, e6) =
      >>=-eq-ok (raise_if (not (inside (expected_relative code extension))) value_error) _ e5 in
    let here : expected_relative code extension ≡ info.destination =
      ap (λ (i : FinalInfo). i.destination) (ok-injective e6) in
    let shape = raise_if-eq-ok _ _ coded in
    (
      extension,
      or_raise-eq-ok (video_extension content_type) value_error known,
      sym here,
      (text_eq_iff stored_path (expected_relative code extension)).0
          (let k = raise_if-eq-ok _ _ stated in ground arith),
      ground arith,
      base62-IsFlat code (ground arith),
      rw (← here) (let k = raise_if-eq-ok _ _ resolved in ground arith),
    )
