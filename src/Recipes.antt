-- ===== src/Recipes.antt =====
-- fielddeck/recipes: the plan of a recipe, and the runner that carries it out.
pub mod Plan
pub mod Preflight
pub mod Runner
pub mod Run
mod Tests
