-- ===== src/Http/Routes/Answers.antt =====
-- middleware.go and router.go: every request is answered.
use update_service.Http.Routes.Coded.{Coded}
