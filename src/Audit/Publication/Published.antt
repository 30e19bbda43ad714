-- ===== src/Audit/Publication/Published.antt =====
-- What the accepted record of a publication shows.
use ckb_vm_sail_verify.Base.{
  String, ◌≡◌, refl, ap, ◌∙◌, Bool, true, false, not, List, [], ◌∷◌, eq_iff,
}
use ckb_vm_sail_verify.Base.Result.{ok, >>=-eq-ok}
use ckb_vm_sail_verify.Base.Result.Returns.{
  Returns, Returns-ok, Returns-bind, Returns-self, ok-injective,
}
use ckb_vm_sail_verify.Base.Json.{Value, str, bool, dict, Fields, item}
use ckb_vm_sail_verify.Base.Text.{append}
use ckb_vm_sail_verify.Audit.Checks.Facts.{
  Hold, Returns-expect, expect-Returns, str-value, true-value, false-value, NamesAre,
  has_names-NamesAre,
}
use ckb_vm_sail_verify.Audit.Site.{Files}
use ckb_vm_sail_verify.Audit.Site.Member.{Refers, reference-Refers}
use ckb_vm_sail_verify.Audit.Publication.{
  get, gets, gets_true, gets_false, assets_of, check_live, gets_digest, check_asset, same_bytes,
  check_download, asset_names, check_assets, check_downloads, check_publication,
}

pub gets-str : (v : Value) (k t : String) → Hold (gets v k (str t)) → get v k ≡ ok (str t)
unfolding gets
gets-str v k t h =
    let (w, found, holds) = >>=-eq-ok (get v k) _ h in
    found ∙ ap ok (str-value w t (ok-injective _ _ holds))

gets_true-bool : (v : Value) (k : String) → Hold (gets_true v k) → get v k ≡ ok (bool true)
unfolding gets_true
gets_true-bool v k h =
    let (w, found, holds) = >>=-eq-ok (get v k) _ h in
    found ∙ ap ok (true-value w (ok-injective _ _ holds))

gets_false-bool : (v : Value) (k : String) → Hold (gets_false v k) → get v k ≡ ok (bool false)
unfolding gets_false
gets_false-bool v k h =
    let (w, found, holds) = >>=-eq-ok (get v k) _ h in
    found ∙ ap ok (false-value w (ok-injective _ _ holds))

-- What is published cannot change, is not a draft, and has the tag of the version.
pub record IsLive (live : Value) (version : String) : Type 0 where
  pub tag : get live "tag_name" ≡ ok (str version)
  pub public : get live "draft" ≡ ok (bool false)
  pub immutable : get live "immutable" ≡ ok (bool true)

check_live-IsLive :
    (live publication : Value) (version : String)
    → Returns (λ _. IsLive live version) (check_live live publication version)
unfolding check_live
check_live-IsLive live publication version = Returns-bind λ _ _. Returns-bind λ _ _.
    expect-Returns _ _ λ h. record {
      tag = gets-str live _ _ h.1.0;
      public = gets_false-bool live _ h.1.1.0;
      immutable = gets_true-bool live _ h.1.1.1.0;
    }

module _ (files : Files) where
  open files use {FilePath, parent, child, name, is_same, size, sha, read}

  -- The asset of this name is uploaded, with the digest of the local file.
  pub record IsUploaded (assets : Fields) (label : String) (path : FilePath) : Type 0 where
    pub row : Value
    pub has_row : item (dict assets) label ≡ ok row
    pub state : get row "state" ≡ ok (str "uploaded")
    pub hash : String
    pub hashed : sha path ≡ ok hash
    pub same_digest : get row "digest" ≡ ok (str (append "sha256:" hash))

  gets_digest-eq :
      (row : Value) (path : FilePath)
      → Hold (gets_digest files row path)
      → (hash : String) × (sha path ≡ ok hash)
        × (get row "digest" ≡ ok (str (append "sha256:" hash)))
  unfolding gets_digest
  gets_digest-eq row path h =
      let (w, found, rest) = >>=-eq-ok (get row "digest") _ h in
      let (hash, hashed, holds) = >>=-eq-ok (sha path) _ rest in
      (hash, hashed, found ∙ ap ok (str-value w _ (ok-injective _ _ holds)))

  check_asset-IsUploaded :
      (publication : Value) (assets : Fields) (label : String) (path : FilePath)
      → Returns
          (λ _. IsUploaded assets label path)
          (check_asset files publication assets label path)
  unfolding check_asset
  check_asset-IsUploaded publication assets label path = Returns-bind λ row e.
      expect-Returns _ _ λ h.
        let (hash, hashed, same) = gets_digest-eq row path h.1.1.0 in
        record {
          row = row;
          has_row = e;
          state = gets-str row _ _ h.0;
          hash = hash;
          hashed = hashed;
          same_digest = same;
        }

  -- A download of the asset, at another place and with the same bytes.
  pub record IsDownloaded (directory : FilePath) (path : FilePath) : Type 0 where
    pub row : Value
    pub copy : FilePath
    pub kept : Refers files directory row copy
    pub apart : is_same copy path ≡ false
    pub hash : String
    pub copy_hash : sha copy ≡ ok hash
    pub same_hash : sha path ≡ ok hash

  same_bytes-eq :
      (p q : FilePath)
      → Hold (same_bytes files p q)
      → (h : String) × (sha p ≡ ok h) × (sha q ≡ ok h)
  unfolding same_bytes
  same_bytes-eq p q holds =
      let (a, at_p, rest) = >>=-eq-ok (sha p) _ holds in
      let (b, at_q, same) = >>=-eq-ok (sha q) _ rest in
      (b, at_p ∙ ap ok ((eq_iff a b).0 (ok-injective _ _ same)), at_q)

  check_download-IsDownloaded :
      (directory : FilePath) (report : Value) (label : String) (path : FilePath)
      → Returns
          (λ _. IsDownloaded directory path)
          (check_download files directory report label path)
  unfolding check_download
  check_download-IsDownloaded directory report label path = Returns-bind λ row _.
      Returns-bind λ copy e. expect-Returns _ _ λ h.
        let (hash, copy_hash, same_hash) = same_bytes-eq copy path h.1.0 in
        record {
          row = row;
          copy = copy;
          kept = (reference-Refers files directory row _).at copy e;
          apart = not-true (is_same copy path) (ok-injective _ _ h.0);
          hash = hash;
          copy_hash = copy_hash;
          same_hash = same_hash;
        }
    where
      not-true : (b : Bool) → not b ≡ true → b ≡ false
      not-true true h = cc h
      not-true false h = refl

  pub AllUploaded : Fields → List (String × FilePath) → Type 0
  AllUploaded assets [] = Unit
  AllUploaded assets ((label, path) ∷ rest) = IsUploaded assets label path × AllUploaded assets rest

  pub AllDownloaded : FilePath → List (String × FilePath) → Type 0
  AllDownloaded directory [] = Unit
  AllDownloaded directory ((label, path) ∷ rest) =
      IsDownloaded directory path × AllDownloaded directory rest

  check_assets-AllUploaded :
      (publication : Value) (assets : Fields) (expected : List (String × FilePath))
      → Returns (λ _. AllUploaded assets expected) (check_assets files publication assets expected)
  unfolding check_assets AllUploaded
  check_assets-AllUploaded publication assets [] = Returns-ok tt tt
  check_assets-AllUploaded publication assets ((label, path) ∷ rest) = Returns-bind λ u e.
      Returns-self _ λ v f. (
        (check_asset-IsUploaded publication assets label path).at u e,
        (check_assets-AllUploaded publication assets rest).at v f,
      )

  pub check_downloads-AllDownloaded :
      (directory : FilePath) (report : Value) (expected : List (String × FilePath))
      → Returns
          (λ _. AllDownloaded directory expected)
          (check_downloads files directory report expected)
  unfolding check_downloads AllDownloaded
  check_downloads-AllDownloaded directory report [] = Returns-ok tt tt
  check_downloads-AllDownloaded directory report ((label, path) ∷ rest) = Returns-bind λ u e.
      Returns-self _ λ v f. (
        (check_download-IsDownloaded directory report label path).at u e,
        (check_downloads-AllDownloaded directory report rest).at v f,
      )

  -- The publication has exactly the expected assets, with the bytes of the local files.
  pub record IsPublication (live : Value) (version : String) (expected : List (String × FilePath))
      : Type 0 where
    pub is_live : IsLive live version
    pub assets : Fields
    pub has_assets : assets_of live ≡ ok assets
    pub names : NamesAre (dict assets) (asset_names files expected)
    pub uploaded : AllUploaded assets expected

  pub check_publication-IsPublication :
      (live publication : Value) (version : String) (expected : List (String × FilePath))
      → Returns
          (λ _. IsPublication live version expected)
          (check_publication files live publication version expected)
  unfolding check_publication
  check_publication-IsPublication live publication version expected = Returns-bind λ u e.
      Returns-bind λ assets f. Returns-bind λ _ _. Returns-expect _ _ λ h. Returns-self _ λ v g.
        record {
          is_live = (check_live-IsLive live publication version).at u e;
          assets = assets;
          has_assets = f;
          names = has_names-NamesAre (dict assets) _ h.1.0;
          uploaded = (check_assets-AllUploaded publication assets expected).at v g;
        }
