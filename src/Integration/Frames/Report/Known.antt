-- ===== src/Integration/Frames/Report/Known.antt =====
-- Which modes the report can describe.
