-- ===== src/Handlers.antt =====
-- What the handlers of handlers/*.go answer: a status with a JSON body, or a redirect. The audit log is
-- not part of an answer. A request's parsed JSON body is `some`, or `none` where `ShouldBindJSON` fails.
pub mod Links
pub mod Accounts
use goshorty.Prelude.{
  ℕ, String, Option, none, some, List, Result, ok, err, ltb, ◌||◌, str_eq, if◌then◌else◌,
}
use goshorty.Prelude.Int.{ℤ, pos, ltb_ℤ}
use goshorty.Models.{User, UrlData, ShortenResponse}
use goshorty.Storage.{Stats}
use goshorty.UrlService.{ListOptions}

-- A user in JSON: the password's hash and the token version are tagged `json:"-"`.
pub record PublicUser : Type 0 where
  pub id : String
  pub username : String
  pub email : String
  pub role : String
  pub created_at : ℤ

abbrev pub public_user : User → PublicUser
public_user user = record {
  id = user.id;
  username = user.username;
  email = user.email;
  role = user.role;
  created_at = user.created_at;
}

pub data Body : Type 0 where
  -- `models.ErrorResponse`
  failure : (message code : String) → Body
  link_created : ShortenResponse → Body
  url_info : UrlData → Body
  url_deleted : (message code : String) → Body
  url_page : List UrlData → (total : ℕ) → (next_cursor : Option String) → Body
  url_list : List UrlData → Body
  statistics : Stats → Body
  service_status : (status service : String) → Body
  -- `models.LoginResponse`
  logged_in : (token : String) → PublicUser → (message : String) → Body
  done : (message : String) → Body
  user_page : List PublicUser → (total : ℕ) → (next_cursor : Option String) → Body
  user_list : List PublicUser → Body
  role_updated : (message username role : String) → Body
  user_deleted : (message username : String) → Body
  current_user : PublicUser → (role username : String) → Body
  build_info : (version commit build_time : String) → Body
  -- The description of the API at a version, on the legacy or the canonical surface.
  api_info : (surface version : String) → Body
  error_only : (error : String) → Body

pub data Response : Type 0 where
  json : (status : ℕ) → Body → Response
  redirect : (status : ℕ) → (location : String) → Response
  -- `c.String` and `c.Data`
  text : (status : ℕ) → (content_type content : String) → Response
  -- `c.AbortWithStatus`
  no_body : (status : ℕ) → Response

abbrev pub status_of : Response → ℕ
status_of (json status body) = status
status_of (redirect status location) = status
status_of (text status content_type content) = status
status_of (no_body status) = status

abbrev pub write_error : ℕ → String → String → Response
write_error status code message = json status (failure message code)

-- The query parameters of a list request.
pub record ListQuery : Type 0 where
  pub limit : String
  pub cursor : String

-- The options, or `none` where a limit is given that is no positive integer. `atoi` is `strconv.Atoi`.
unfoldable pub parse_list_options : (String → Option ℤ) → ListQuery → Option ListOptions
parse_list_options atoi query =
    if str_eq query.limit ""
    then some (record { limit = pos 0; cursor = query.cursor })
    else (elim (atoi query.limit) [
      | none ↦ none
      | some n ↦
          if ltb_ℤ n (pos 1) then none else some (record { limit = n; cursor = query.cursor })
    ])
