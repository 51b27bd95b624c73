-- ===== src/UrlService/Kept.antt =====
-- What a store keeps at each call, services/url_service.go keeps: it changes the store only by calls.
use goshorty.Prelude.{ℕ, zero, suc, String, Option, arith}
use goshorty.Go.Url.{ParsedUrl}
use goshorty.Config.{Config}
use goshorty.Models.{UrlData, ShortenRequest}
use goshorty.Random.{generate_short_code}
use goshorty.UrlStore.{UrlStore}
use goshorty.UrlService.{
  Entropy, code_length_at, max_attempts, reserve_custom, reserve_random, respond, new_url,
  create_short_url, get_original_url, delete_url,
}

-- `SetIfAbsent` is called with the code of its data.
pub record Keeps {E S : Type 0} (store : UrlStore E S) (P : S → Type 0) : Type 0 where
  pub sets : (now : E) (u : UrlData) (s : S) → P s → P (store.set_if_absent now u.short_code u s).1
  pub visits : (now : E) (code : String) (s : S) → P s → P (store.get_and_increment now code s).1
  pub deletes : (now : E) (code : String) (s : S) → P s → P (store.delete_key now code s).1

module _ {E S : Type 0} (store : UrlStore E S) (P : S → Type 0) (keeps : Keeps store P) where
  reserve_custom-Keeps :
      (entropy : Entropy E) (code : String) (u : UrlData) (s : S)
      → P s
      → P (reserve_custom store entropy code u s).1
  unfolding reserve_custom
  reserve_custom-Keeps entropy code u s h =
      let u' : UrlData = record u { short_code = code } in
      let kept = keeps.sets (entropy.clock 0) u' s h in ground (arith, kept)

  reserve_random-Keeps :
      (entropy : Entropy E) (rounds i : ℕ) (u : UrlData) (s : S)
      → P s
      → P (reserve_random store entropy rounds i u s).1
  unfolding reserve_random
  reserve_random-Keeps entropy zero i u s h = h
  reserve_random-Keeps entropy (suc rounds) i u s h =
      let now = entropy.clock i in
      let code = generate_short_code (code_length_at i) (entropy.code_draws i) in
      let u' : UrlData = record u { short_code = code } in
      let kept = keeps.sets now u' s h in
      let later =
        reserve_random-Keeps entropy rounds (suc i) u' (store.set_if_absent now code u' s).1 kept in
      ground (arith, kept, later)

  pub create_short_url-Keeps :
      (config : Config) (parse_url : String → Option ParsedUrl) (entropy : Entropy E)
      (req : ShortenRequest) (user_id : String) (s : S)
      → P s
      → P (create_short_url store config parse_url entropy req user_id s).1
  unfolding create_short_url respond
  create_short_url-Keeps config parse_url entropy req user_id s h =
      let u = new_url config entropy req user_id in
      let custom = reserve_custom-Keeps entropy req.custom_code u s h in
      let random = reserve_random-Keeps entropy max_attempts 0 u s h in
      ground (arith, custom, random)

  pub get_original_url-Keeps :
      (now : E) (code : String) (s : S) → P s → P (get_original_url store now code s).1
  unfolding get_original_url
  get_original_url-Keeps now code s h = ground (arith, keeps.visits now code s h)

  pub delete_url-Keeps :
      (now later : E) (code user_id role : String) (s between : S)
      → P between
      → P (delete_url store now later code user_id role s between).1
  unfolding delete_url
  delete_url-Keeps now later code user_id role s between h =
      ground (arith, keeps.deletes later code between h)
