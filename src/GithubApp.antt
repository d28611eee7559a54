-- ===== src/GithubApp.antt =====
-- libs/go/githubapp: the App's installation tokens, its rate budget, and the calls of GitHub's API.
pub mod RateLimit
pub mod Outside
pub mod Replies
pub mod Jwt
pub mod Env
pub mod Tokens
pub mod Client
pub mod Queries
pub mod Exhausted
pub mod Connected
