-- ===== src/Handlers/Links/Kept.antt =====
-- What a store keeps at each call, the handlers of handlers/handler.go keep.
use goshorty.Prelude.{String, Option, none, some, arith}
use goshorty.Go.Url.{ParsedUrl}
use goshorty.Config.{Config}
use goshorty.Models.{ShortenRequest}
use goshorty.UrlStore.{UrlStore}
use goshorty.UrlService.{Entropy}
use goshorty.UrlService.Kept
use goshorty.UrlService.Kept.{Keeps}
use goshorty.Handlers.Links.{create_short_url, redirect_link, delete_url}

module _ {E S : Type 0} (store : UrlStore E S) (P : S → Type 0) (keeps : Keeps store P) where
  pub create_short_url-Keeps :
      (config : Config) (parse_url : String → Option ParsedUrl) (entropy : Entropy E)
      (body : Option ShortenRequest) (user_id : String) (s : S)
      → P s
      → P (create_short_url store config parse_url entropy body user_id s).1
  unfolding create_short_url
  create_short_url-Keeps config parse_url entropy none user_id s h = h
  create_short_url-Keeps config parse_url entropy (some req) user_id s h =
      let kept =
        Kept.create_short_url-Keeps store P keeps config parse_url entropy req user_id s h in
      ground (arith, kept)

  pub redirect_link-Keeps :
      (now : E) (code : String) (s : S) → P s → P (redirect_link store now code s).1
  unfolding redirect_link
  redirect_link-Keeps now code s h =
      let kept = Kept.get_original_url-Keeps store P keeps now code s h in ground (arith, kept)

  pub delete_url-Keeps :
      (now later : E) (code user_id role : String) (s between : S)
      → P between
      → P (delete_url store now later code user_id role s between).1
  unfolding delete_url
  delete_url-Keeps now later code user_id role s between h =
      let kept = Kept.delete_url-Keeps store P keeps now later code user_id role s between h in
      ground (arith, kept)
