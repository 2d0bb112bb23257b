-- ===== src/Artifacts/Redirects.antt =====
-- The requests that a download makes.
use mathlib.Core.List.{append-nil, append_assoc}
use wheelguard.Base.{
  ℕ, suc, zero, ◌≤◌, ◌≡◌, refl, sym, ◌∙◌, true, String, Option, none, some, List, [], ◌∷◌, ◌++◌,
  length, All, Bool-cases, inl, inr, arith,
}
use wheelguard.Artifacts.{Bytes, allowed_https_url}
use wheelguard.Artifacts.Download.{
  Reply, failed, answer, Net, Store, send, redirect, follow, stream_allowed, is_redirect, download,
  declared_too_large,
}
use wheelguard.Models.{ArtifactRecord}
use wheelguard.Platform.{Platform, Urls}

requested-send :
    (url : String) (net : Net) → (send url net).1.requested ≡ net.requested ++ (url ∷ [])
unfolding send
requested-send url net = go net.script refl
  where
    go :
        (script : List Reply)
        → net.script ≡ script
        → (send url net).1.requested ≡ net.requested ++ (url ∷ [])
    go [] e = rw (e, send)
    go (r ∷ rs) e = rw (e, send)

module _ (P : Platform) (urls : Urls) (hosts : List String) where
  -- The trace grew by at most so many URLs, each of them allowed.
  pub record Grew (most : ℕ) (before after : Net) : Type 0 where
    pub new : List String
    pub trace : after.requested ≡ before.requested ++ new
    pub allowed : All (λ u. allowed_https_url P urls u hosts ≡ true) new
    pub few : length new ≤ most

  Grew-refl : (most : ℕ) (net : Net) → Grew most net net
  Grew-refl most net = record {
    new = [];
    trace = sym (append-nil _);
    allowed = tt;
    few = omega arith;
  }

  after_send :
      (most : ℕ) (url : String) (net : Net) {last : Net}
      → allowed_https_url P urls url hosts ≡ true
      → Grew most (send url net).1 last
      → Grew (suc most) net last
  after_send most url net {last} h g = record {
    new = url ∷ g.new;
    trace = g.trace ∙ rw (requested-send url net) (append_assoc net.requested (url ∷ []) g.new);
    allowed = (h, g.allowed);
    few = omega (arith, g.few);
  }

  redirect-Grew :
      (left : ℕ) (url : String) (location : Option String) (net : Net)
      → ((u : String) (n : Net) → Grew left n (stream_allowed P urls hosts left u n).1)
      → Grew left net
          (redirect P urls hosts left (stream_allowed P urls hosts left) url location net).1
  unfolding redirect
  redirect-Grew left url none net ih = Grew-refl left net
  redirect-Grew zero url (some l) net ih = Grew-refl zero net
  redirect-Grew (suc n) url (some l) net ih = ih (urls.urljoin url l) net

  follow-Grew :
      (left : ℕ) (url : String) (reply : Reply) (net : Net)
      → ((u : String) (n : Net) → Grew left n (stream_allowed P urls hosts left u n).1)
      → Grew left net (follow P urls hosts left (stream_allowed P urls hosts left) url reply net).1
  unfolding follow
  follow-Grew left url failed net ih = Grew-refl left net
  follow-Grew left url (answer status location chunks broken) net ih =
      elim (Bool-cases (is_redirect status)) [
        | inr h ↦ rw h (Grew-refl left net)
        | inl h ↦ rw h (redirect-Grew left url location net ih)
      ]

  -- Every URL that is asked for is allowed, redirect targets included, and there are no more
  -- requests than rounds.
  pub stream_allowed-Grew :
      (rounds : ℕ) (url : String) (net : Net)
      → Grew rounds net (stream_allowed P urls hosts rounds url net).1
  unfolding stream_allowed
  stream_allowed-Grew zero url net = Grew-refl zero net
  stream_allowed-Grew (suc left) url net = elim (Bool-cases (allowed_https_url P urls url hosts)) [
    | inr h ↦ rw h (Grew-refl (suc left) net)
    | inl h ↦ rw h (
        after_send left url net h
          (follow-Grew left url (send url net).0 (send url net).1 (stream_allowed-Grew left)))
  ]

  -- A download makes at most six requests, each to an allowed HTTPS URL, redirect targets included.
  pub download-Grew :
      (hexdigest : Bytes → String) (maximum : ℕ) (r : ArtifactRecord) (store : Store) (net : Net)
      → Grew 6 net (download P urls hosts hexdigest maximum r store net).2
  unfolding download
  download-Grew hexdigest maximum r store net =
      elim (Bool-cases (allowed_https_url P urls r.source_url hosts)) [
        | inr h ↦ rw h (Grew-refl 6 net)
        | inl h ↦ elim (Bool-cases (declared_too_large maximum r)) [
          | inl k ↦ rw (h, k) (Grew-refl 6 net)
          | inr k ↦ rw (h, k) (stream_allowed-Grew 6 r.source_url net)
        ]
      ]
