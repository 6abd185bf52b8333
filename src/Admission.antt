-- ===== src/Admission.antt =====
-- Who is admitted to the exam of a course: src/admission-status and utils/math.ts.
pub mod Rounding
pub mod Rules
pub mod Status
mod Tests
