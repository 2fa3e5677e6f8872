-- ===== src/Submissions.antt =====
-- backend/domain-submissions: the results of submissions.
pub mod Status
pub mod Results
pub mod Routes
