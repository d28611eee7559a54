-- ===== src/GithubApp/Queries/Patches.antt =====
-- What comes of the patches of a pull request.
use dev_intel_platform.Base.{
  String, ◌≡◌, refl, Bool, true, false, ◌&&◌, List, [], ◌∷◌, All, map, arith, if◌then◌else◌,
}
use dev_intel_platform.Base.Int.{ℤ, pos, ltb_ℤ, ◌≤ℤ◌}
use dev_intel_platform.Base.Text.{byte_length}
use dev_intel_platform.Json.{unmarshal_json}
use dev_intel_platform.Connector.{FileChange}
use dev_intel_platform.GithubApp.Outside.{Answer, ok, err, App, Process, after_ind, give}
use dev_intel_platform.GithubApp.Replies.{RawFile, decode_raw_files}
use dev_intel_platform.GithubApp.Client.{get, decoded}
use dev_intel_platform.GithubApp.Queries.{file_of, fetch_pull_request_patches}

-- A patch within the cap, where there is one; a dropped patch is empty, and nothing is dropped
-- without a cap.
pub record IsCapped (max_bytes : ℤ) (f : FileChange) : Type 0 where
  pub within : pos 1 ≤ℤ max_bytes → pos (byte_length f.patch) ≤ℤ max_bytes
  pub dropped : f.truncated ≡ true → (f.patch ≡ "") × (pos 1 ≤ℤ max_bytes)

empty_length : byte_length "" ≡ 0
empty_length = refl

IsCapped-if :
    (max_bytes : ℤ) (f : RawFile) (b : Bool)
    → (ltb_ℤ (pos 0) max_bytes && ltb_ℤ max_bytes (pos (byte_length f.patch))) ≡ b
    → IsCapped max_bytes (record {
      path = f.filename;
      additions = f.additions;
      deletions = f.deletions;
      patch = if b then "" else f.patch;
      truncated = b;
    })
IsCapped-if max_bytes f true e = record {
  within = λ h. ground (arith, empty_length);
  dropped = λ _. (refl, ground (arith, e));
}
IsCapped-if max_bytes f false e = record { within = λ h. ground (arith, e); dropped = λ d. cc }

file_of-IsCapped : (max_bytes : ℤ) (f : RawFile) → IsCapped max_bytes (file_of max_bytes f)
unfolding file_of
file_of-IsCapped max_bytes f = IsCapped-if max_bytes f _ refl

files-IsCapped :
    (max_bytes : ℤ) (fs : List RawFile) → All (IsCapped max_bytes) (map (file_of max_bytes) fs)
files-IsCapped max_bytes [] = tt
files-IsCapped max_bytes (f ∷ fs) = (file_of-IsCapped max_bytes f, files-IsCapped max_bytes fs)

-- What the call answers: files within the cap, or an error.
abbrev pub AreCapped : {Bytes : Type 0} → ℤ → Answer Bytes (List FileChange) → Type 0
AreCapped max_bytes (ok files) = All (IsCapped max_bytes) files
AreCapped max_bytes (err e) = Unit

-- Whatever GitHub answers to the request for a pull request's files, each file that the call returns
-- has a patch of at most the given number of bytes where that number is positive; a file marked as
-- truncated has no patch, and there is one only where that number is positive.
pub fetch_pull_request_patches-AreCapped :
    {Bytes S : Type 0} (app : App Bytes S) (id : ℤ) (repo : String) (number max_bytes : ℤ)
    (p : Process S)
    → AreCapped max_bytes (fetch_pull_request_patches app id repo number max_bytes p).0
unfolding fetch_pull_request_patches
fetch_pull_request_patches-AreCapped app id repo number max_bytes p =
    after_ind (λ _. Unit) (λ x. AreCapped max_bytes x.0) _ (get app id _ p) tt
      (λ resp q _.
        after_ind (λ _. Unit) (λ x. AreCapped max_bytes x.0)
          (λ raw. give (map (file_of max_bytes) raw))
          (decoded app (unmarshal_json app.codec decode_raw_files)
            (app.net.limited 16777216 resp.body) resp.status q)
          tt (λ raw r _. files-IsCapped max_bytes raw) (λ e r _. tt))
      (λ e q _. tt)
